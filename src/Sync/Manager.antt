-- ===== src/Sync/Manager.antt =====
-- internal/sync/sync.go: SyncManager, and the broadcast of a host's tick. math.Float64bits and its inverse
-- are parameters, as float64 is.
use peerwatch.Base.{ℕ, ◌≡◌, refl, ap, ◌∙◌, Bool, true, false, none, some, List, ◌∷◌}
use mathlib.Core.Option
use peerwatch.Base.Tests.{◌==◌, if◌then◌else◌}
use peerwatch.Base.Floats.{Floats}
use peerwatch.Protocol.Message.{Float64, SyncMsg, sync, state_paused, state_playing}
use peerwatch.Peer.Connection.{Peer, send}
use peerwatch.Peer.Swarm.{Swarm, get_peer}
use peerwatch.Peer.Duties.{broadcast}
use peerwatch.Peer.Reconnect.{get_peer-broadcast}
use peerwatch.Sync.{set_paused, SyncState, PlayerView, Command, host_message, handle_sync}
use peerwatch.Sync.Tiers.{paused_after, handle_sync-paused}

pub record SyncManager : Type 0 where
  pub is_host : Bool
  pub done : Bool

-- What Start sets going: the host's loop, or the joiner's OnSyncReceived.
pub data Role : Type 0 where
  host_loop on_sync_received : Role

unfoldable pub new_sync_manager : Bool → SyncManager
new_sync_manager is_host = record { is_host = is_host; done = false }

unfoldable pub start : SyncManager → Role
start m = if m.is_host then host_loop else on_sync_received

unfoldable pub stop : SyncManager → SyncManager
stop m = if m.done then m else record m { done = true }

flag_paused : (b : Bool) → ((if b then state_paused else state_playing) == state_paused) ≡ b
flag_paused true = refl
flag_paused false = refl

module _ {F : Type 0} (bits : F → Float64) (of_bits : Float64 → F) where
  unfoldable pub message_of : SyncState F → SyncMsg
  message_of msg = record {
    playback_time = bits msg.playback_time;
    state = msg.state;
    unix_ms = msg.unix_ms;
  }

  unfoldable pub state_of : SyncMsg → SyncState F
  state_of m = record {
    playback_time = of_bits m.playback_time;
    state = m.state;
    unix_ms = m.unix_ms;
  }

  -- hostLoop when its ticker fires.
  unfoldable pub host_tick : {G : Type 0} → PlayerView F → Swarm G → Swarm G
  unfolding host_message broadcast message_of
  host_tick view s = elim (host_message view) [
    | none ↦ s
    | some msg ↦ broadcast (sync (message_of msg)) s
  ]

  -- OnSyncReceived of a joiner.
  unfoldable pub sync_received : Floats F → SyncMsg → PlayerView F → List (Command F)
  unfolding handle_sync state_of
  sync_received floats m view = handle_sync floats (state_of m) view

  -- A tick of a host whose player answers puts a SYNC into the queue of each open peer of the table. A joiner
  -- that receives it, and whose player answers whether it is paused, is afterwards paused just if the host
  -- is, if mpv carries out the command that sets it so; if mpv does not, the joiner is as it was. A host
  -- whose player does not answer sends nothing.
  pub host_tick-sync_received :
      {G : Type 0} (works : Command F → Bool) (floats : Floats F) (time : F) (paused : Bool)
      (view : PlayerView F) (s : Swarm G) (id : ℕ) (p : Peer G)
      → get_peer s id ≡ some p
      → p.closed ≡ false
      → (m : SyncMsg) × (get_peer
            (host_tick (record view { time = some time; paused = some paused }) s)
            id
          ≡ some (record p { queue = sync m ∷ p.queue }))
        × ((own : PlayerView F) (was : Bool)
            → own.paused ≡ some was
            → paused_after works (sync_received floats m own) was
              ≡ (if works (set_paused paused) then paused else was))
        × (host_tick (record view { time = none }) s ≡ s)
        × (host_tick (record view { time = some time; paused = none }) s ≡ s)
  unfolding host_tick host_message message_of state_of sync_received send
  host_tick-sync_received works floats time paused view s id p there alive =
      let m = message_of (record {
        playback_time = time;
        state = if paused then state_paused else state_playing;
        unix_ms = view.now_ms;
      }) in
      (
        m,
        get_peer-broadcast (sync m) id s ∙ ap (Option.map (send (sync m))) there ∙ rw alive refl,
        λ own was known.
            (handle_sync-paused works floats (state_of m) own was known).0
            ∙ ap (λ b. if works (set_paused b) then b else was) (flag_paused paused),
        refl,
        refl,
      )
