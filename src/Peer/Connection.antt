-- ===== src/Peer/Connection.antt =====
-- internal/peer/peer.go: what a Peer keeps of a remote peer. Times are nanoseconds of the monotonic
-- clock; a chunk's entry in `in_flight` is the time of its request. `queue` is outCh, oldest last.
use peerwatch.Base.{ℕ, ◌-◌, ◌/◌, Bool, true, false, Option, none, some, List, [], ◌∷◌}
use peerwatch.Base.Tests.{ltb, leb, if◌then◌else◌}
use peerwatch.Base.Lists.{length}
use peerwatch.Base.Int.{pos}
use peerwatch.Base.Entries.{lookup, put, remove, keys}
use peerwatch.Base.Floats.{Floats}
use peerwatch.Protocol.Message.{Bytes, Message}
use peerwatch.Chunk.Bitfield.{bit_at}

pub record Peer (F : Type 0) : Type 0 where
  pub id : ℕ
  pub addr : Bytes
  pub queue : List Message
  pub bitfield : Option Bytes
  pub speed : F
  pub in_flight : List (ℕ × ℕ)
  pub closed : Bool

-- The test of HasChunk, in a bitfield that may not be there yet.
unfoldable pub bit_within : ℕ → Option Bytes → Bool
bit_within index none = false
bit_within index (some bf) = if leb (length bf) (index / 8) then false else bit_at bf index

module _ {F : Type 0} (floats : Floats F) where
  unfoldable pub new_peer : Bytes → Peer F
  new_peer addr = record {
    id = 0;
    addr = addr;
    queue = [];
    bitfield = none;
    speed = floats.decimal 0 0;
    in_flight = [];
    closed = false;
  }

  -- The average of old and new speed, where `elapsed` is Duration.Seconds.
  unfoldable pub blend_speed : ℕ → F → F → F
  blend_speed size elapsed speed =
      if floats.less (floats.decimal 0 0) elapsed
      then floats.plus (floats.times (floats.decimal 7 1) speed)
          (floats.times (floats.decimal 3 1) (floats.over (floats.of_int (pos size)) elapsed))
      else speed

  -- ClearInFlight at time `now`.
  unfoldable pub clear_in_flight : (ℕ → F) → ℕ → ℕ → ℕ → Peer F → Peer F
  unfolding blend_speed
  clear_in_flight seconds now index size p = elim (lookup index p.in_flight) [
    | none ↦ p
    | some asked ↦ record p {
      speed = blend_speed size (seconds (now - asked)) p.speed;
      in_flight = remove index p.in_flight;
    }
  ]

  -- The loop of TimeoutInFlight over the entries: the speed, the indices collected, what stays.
  unfoldable pub sweep : ℕ → ℕ → F → List (ℕ × ℕ) → F × List ℕ × List (ℕ × ℕ)
  sweep limit now speed [] = (speed, [], [])
  sweep limit now speed ((index, asked) ∷ rest) =
      let (slowed, late, kept) = sweep limit now (floats.times speed (floats.decimal 5 1)) rest in
      let (speed', late', kept') = sweep limit now speed rest in
      if ltb limit (now - asked)
      then (slowed, index ∷ late, kept)
      else (speed', late', (index, asked) ∷ kept')

  unfoldable pub timeout_in_flight : ℕ → ℕ → Peer F → Peer F × List ℕ
  unfolding sweep
  timeout_in_flight limit now p =
      let (speed, late, kept) = sweep limit now p.speed p.in_flight in
      (record p { speed = speed; in_flight = kept }, late)

module _ {F : Type 0} where
  -- Send puts the message into the queue, or gives it up when the peer is closed. It blocks on a full
  -- queue, which is not modelled: the queue has no bound here.
  unfoldable pub send : Message → Peer F → Peer F
  send m p = if p.closed then p else record p { queue = m ∷ p.queue }

  unfoldable pub close : Peer F → Peer F
  close p = record p { closed = true }

  unfoldable pub set_bitfield : Bytes → Peer F → Peer F
  set_bitfield bf p = record p { bitfield = some bf }

  -- HasChunk, of an index that is not negative.
  unfoldable pub has_chunk : Peer F → ℕ → Bool
  unfolding bit_within
  has_chunk p index = bit_within index p.bitfield

  unfoldable pub mark_in_flight : ℕ → ℕ → Peer F → Peer F
  mark_in_flight now index p = record p { in_flight = put index now p.in_flight }

  unfoldable pub in_flight_count : Peer F → ℕ
  in_flight_count p = length p.in_flight

  unfoldable pub in_flight_chunks : Peer F → List ℕ
  in_flight_chunks p = keys p.in_flight
