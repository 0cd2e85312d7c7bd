-- ===== src/Sync/Tests.antt =====
-- Runs and a theorem of internal/sync: the host is paused, the joiner plays. Numbers are
-- whole here.
use peerwatch.Base.{ℕ, ◌+◌, ◌-◌, ◌*◌, ◌/◌, ◌^◌, ◌≡◌, refl, Bool, true, false, none, some, [], ◌∷◌}
use peerwatch.Base.Tests.{ltb, leb}
use peerwatch.Base.Int.{pos, pos_part}
use peerwatch.Base.Floats.{Floats}
use peerwatch.Base.Tests.{if◌then◌else◌}
use peerwatch.Sync.{Command, SyncState, PlayerView, handle_sync, set_paused, seek, set_speed}
use peerwatch.Sync.Manager.{
  host_tick, sync_received, host_tick-sync_received, start, stop, new_sync_manager, host_loop,
  on_sync_received,
}
use peerwatch.Peer.Connection.{Peer}
use peerwatch.Peer.Swarm.{Swarm, get_peer}
use peerwatch.Protocol.Message.{SyncMsg, sync}
use peerwatch.Sync.Tiers.{paused_after}

abbrev whole : Floats ℕ
whole = record {
  plus = λ a b. a + b;
  minus = λ a b. a - b;
  times = λ a b. a * b;
  over = λ a b. a / b;
  less = ltb;
  at_most = leb;
  of_int = pos_part;
  decimal = λ n k. n / 10 ^ k;
}

abbrev stopped : SyncState ℕ
stopped = record { playback_time = 60; state = 0; unix_ms = pos 5000 }

abbrev playing : PlayerView ℕ
playing = record { paused = some false; time = some 55; now_ms = pos 5100 }

-- A swarm with one peer.
abbrev listener : Peer ℕ
listener = record {
  id = 7;
  addr = [];
  queue = [];
  bitfield = none;
  speed = 0;
  in_flight = [];
  closed = false;
}

abbrev room : Swarm ℕ
room = record {
  self_id = 1;
  is_host = true;
  manifest = none;
  tracker = none;
  host_addr = [];
  done = false;
  peers = (7, listener) ∷ [];
}

-- The joiner stops, at the place of the host.
followed : handle_sync whole stopped playing ≡ set_paused true ∷ seek 60 ∷ set_speed 1 ∷ []
unfolding handle_sync
followed = refl

-- mpv pauses, but does not go on.
abbrev obeys : Command ℕ → Bool
obeys (set_paused b) = b
obeys _ = true

host_tick-sync_received_example :
    (m : SyncMsg) × (get_peer
        (host_tick (λ x. x) (λ x. x) (record playing { time = some 60; paused = some true }) room)
        7
      ≡ some (record listener { queue = sync m ∷ [] }))
    × ((own : PlayerView ℕ) (was : Bool)
        → own.paused ≡ some was
        → paused_after obeys (sync_received (λ x. x) (λ x. x) whole m own) was
          ≡ (if obeys (set_paused true) then true else was))
    × (host_tick (λ x. x) (λ x. x) (record playing { time = none }) room ≡ room)
    × (host_tick (λ x. x) (λ x. x) (record playing { time = some 60; paused = none }) room ≡ room)
unfolding get_peer
host_tick-sync_received_example =
    host_tick-sync_received (λ x. x) (λ x. x) obeys whole 60 true playing room 7 listener refl refl

managers :
    (start (new_sync_manager true) ≡ host_loop)
    × (start (stop (new_sync_manager false)) ≡ on_sync_received)
unfolding start stop new_sync_manager
managers = (refl, refl)
