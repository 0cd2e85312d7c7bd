-- ===== src/Commands.antt =====
-- main.go and cmd/join.go: the choice of the command, and what join wires together: the callbacks for a
-- piece and for the end of a peer, and the cursor that follows the player.
pub mod Cursor
pub mod Pieces
pub mod Start
pub mod Rooms
mod Tests
use peerwatch.Base.{ℕ, Bool, true, false, Option, none, some, List, [], ◌∷◌, ◌||◌}
use peerwatch.Base.Tests.{if◌then◌else◌}
use peerwatch.Base.Int.{ℤ, pos, leb_ℤ, ltb_ℤ, eqb_ℤ, sub64, quot64}
use peerwatch.Base.Floats.{Floats}
use peerwatch.Base.Results.{Result, ok, err, panic, ◌>>=◌}
use peerwatch.Protocol.Message.{Bytes, Digest}
use peerwatch.Chunk.File.{WriteOutcome}
use peerwatch.Chunk.Manifest.{Manifest}
use peerwatch.Chunk.Store.Defs.{Store, StoreError, write_chunk}
use peerwatch.Peer.Swarm.{same_bytes}
use peerwatch.Scheduler.Tick
use peerwatch.Scheduler.Tick.{Scheduler, set_cursor, release_in_flight}

-- What main does: `start` and `join` take the arguments behind the command's name.
pub data Action : Type 0 where
  usage help : Action
  start join : List Bytes → Action
  unknown : Bytes → Action

abbrev start_word : Bytes
start_word = b's' ∷ b't' ∷ b'a' ∷ b'r' ∷ b't' ∷ []

abbrev join_word : Bytes
join_word = b'j' ∷ b'o' ∷ b'i' ∷ b'n' ∷ []

abbrev help_word : Bytes
help_word = b'h' ∷ b'e' ∷ b'l' ∷ b'p' ∷ []

abbrev is_help : Bytes → Bool
is_help word =
    same_bytes word help_word
    || same_bytes word (45 ∷ b'h' ∷ [])
    || same_bytes word (45 ∷ 45 ∷ help_word)

-- os.Args, the program's name first.
unfoldable pub choose : List Bytes → Action
choose [] = usage
choose (program ∷ []) = usage
choose (program ∷ word ∷ args) =
    if same_bytes word start_word
    then start args
    else if same_bytes word join_word
    then join args
    else if is_help word
    then help
    else unknown word

-- swarm.OnPieceReceived of a joiner; `disk` is how the WriteAt of its store ends.
unfoldable pub on_piece :
    (Bytes → Digest)
    → WriteOutcome
    → ℕ
    → Bytes
    → Store × Scheduler
    → Result StoreError (Store × Scheduler)
on_piece sha256 disk index payload (store, sched) =
    let (store', outcome) = write_chunk sha256 store (pos index) payload disk in
    elim outcome [
      | ok done ↦ ok (store', Tick.on_piece_received index sched)
      | err e ↦ ok (store', sched)
      | panic ↦ panic
    ]

-- swarm.OnPeerDisconnected of a joiner.
unfoldable pub on_disconnected : List ℕ → Scheduler → Scheduler
unfolding release_in_flight
on_disconnected [] sched = sched
on_disconnected (index ∷ indices) sched = release_in_flight (index ∷ indices) sched

unfoldable pub clamp_index : ℕ → ℤ → ℤ
clamp_index count i =
    let j = if leb_ℤ (pos count) i then sub64 (pos count) (pos 1) else i in
    if ltb_ℤ j (pos 0) then pos 0 else j

module _ {F : Type 0} (floats : Floats F) (to_int64 : F → ℤ) where
  -- The chunk at a position of the player. `to_int64` is the conversion from float64.
  unfoldable pub chunk_index : {E : Type 0} → Manifest → F → F → Result E ℤ
  unfolding clamp_index
  chunk_index m position duration =
      if eqb_ℤ m.chunk_size (pos 0)
      then panic
      else ok (
          clamp_index m.chunk_count (
            quot64
              (to_int64 (floats.times (floats.over position duration) (floats.of_int m.file_size)))
              m.chunk_size))

  -- `duration` is 0 until GetDuration has answered a number above 0; `none` stands for that 0.
  unfoldable pub detect : Option F → Option F → Option F
  detect asked (some d) = some d
  detect none none = none
  detect (some d) none = if floats.less (floats.decimal 0 0) d then some d else none

  -- A tick of the cursor loop, with what GetDuration and GetPlaybackTime answer.
  unfoldable pub cursor_tick :
      {E : Type 0}
      → Manifest
      → Option F
      → Option F
      → Option F × Scheduler
      → Result E (Option F × Scheduler)
  unfolding chunk_index set_cursor detect
  cursor_tick m asked position (duration, sched) = elim (detect asked duration) [
    | none ↦ ok (none, sched)
    | some d ↦ elim position [
      | none ↦ ok (some d, sched)
      | some p ↦ chunk_index m p d >>= λ i. ok (some d, set_cursor i sched)
    ]
  ]
