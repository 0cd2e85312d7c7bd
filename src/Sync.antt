-- ===== src/Sync.antt =====
-- internal/sync/sync.go: what a joiner does with its player when a SYNC message arrives, and what the
-- host sends. The player is what its calls answer, and the commands that it is given; a call that
-- fails answers `none`. The commands' own errors are dropped, as in the code. float64 is a parameter.
mod Tests
pub mod Tiers
pub mod Manager
use peerwatch.Base.{ℕ, Bool, true, false, not, ◌&&◌, ◌||◌, Option, none, some, List, [], ◌∷◌, ◌++◌}
use peerwatch.Base.Tests.{◌==◌, if◌then◌else◌}
use peerwatch.Base.Int.{ℤ, sub64}
use peerwatch.Base.Floats.{Floats}
use peerwatch.Protocol.Message.{state_paused, state_playing}

-- The commands to mpv.
pub data Command (F : Type 0) : Type 0 where
  set_paused : Bool → Command F
  seek : F → Command F
  set_speed : F → Command F

-- A SyncMsg with its float64 as a number.
pub record SyncState (F : Type 0) : Type 0 where
  pub playback_time : F
  pub state : ℕ
  pub unix_ms : ℤ

-- What the player answers, and the clock in milliseconds.
pub record PlayerView (F : Type 0) : Type 0 where
  pub paused : Option Bool
  pub time : Option F
  pub now_ms : ℤ

module _ {F : Type 0} (floats : Floats F) where
  -- The estimate of the delay, in seconds; out of [0, 5] it counts as none.
  unfoldable pub latency : ℤ → ℤ → F
  latency now_ms unix_ms =
      let l = floats.over (floats.of_int (sub64 now_ms unix_ms)) (floats.decimal 1000 0) in
      if floats.less l (floats.decimal 0 0) || floats.less (floats.decimal 5 0) l
      then floats.decimal 0 0
      else l

  -- math.Abs, as far as the comparison with it goes.
  unfoldable pub far : F → F → Bool
  far limit drift =
      floats.less limit drift || floats.less drift (floats.minus (floats.decimal 0 0) limit)

  -- The three tiers.
  unfoldable pub correct : F → F → List (Command F)
  unfolding far
  correct target drift =
      if far (floats.decimal 2 0) drift
      then seek target ∷ set_speed (floats.decimal 1 0) ∷ []
      else if floats.less drift (floats.minus (floats.decimal 0 0) (floats.decimal 5 1))
      then set_speed (floats.decimal 105 2) ∷ []
      else if floats.less (floats.decimal 5 1) drift
      then set_speed (floats.decimal 95 2) ∷ []
      else set_speed (floats.decimal 1 0) ∷ []

  -- The part of handleSync behind the pause and play states.
  unfoldable pub follow : SyncState F → PlayerView F → List (Command F)
  unfolding latency correct
  follow msg view = elim view.time [
    | none ↦ []
    | some time ↦
        let target = floats.plus msg.playback_time (latency view.now_ms msg.unix_ms) in
        correct target (floats.minus time target)
  ]

  unfoldable pub handle_sync : SyncState F → PlayerView F → List (Command F)
  unfolding follow
  handle_sync msg view =
      let host_paused = msg.state == state_paused in
      elim view.paused [
        | none ↦ []
        | some paused ↦
            if host_paused && not paused
            then set_paused true ∷ seek msg.playback_time ∷ set_speed (floats.decimal 1 0) ∷ []
            else (if not host_paused && paused then set_paused false ∷ [] else [])
              ++ (if host_paused then [] else follow msg view)
      ]

-- What the host broadcasts when its ticker fires: nothing while the player does not answer.
unfoldable pub host_message : {F : Type 0} → PlayerView F → Option (SyncState F)
host_message view = elim view.time [
  | none ↦ none
  | some time ↦ elim view.paused [
    | none ↦ none
    | some paused ↦ some (record {
      playback_time = time;
      state = if paused then state_paused else state_playing;
      unix_ms = view.now_ms;
    })
  ]
]
