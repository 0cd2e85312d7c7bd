-- ===== src/Peer/Tracker.antt =====
-- internal/peer/tracker.go: which peers have which chunk. A peer ID is a number, `availability` lists
-- for each chunk the keys of its set. `chunkCount` is what NewTracker was given, and not negative.
use peerwatch.Base.{ℕ, zero, suc, ◌+◌, ◌/◌, Bool, List, [], map}
use peerwatch.Base.Tests.{leb, if◌then◌else◌}
use peerwatch.Base.Lists.{length, get_or, set, replicate}
use peerwatch.Base.Keys.{insert_key, delete_key}
use peerwatch.Base.Int.{ℤ, pos, negsuc}
use peerwatch.Protocol.Message.{Bytes}
use peerwatch.Chunk.Bitfield.{bit_at}

pub record Tracker : Type 0 where
  pub chunk_count : ℕ
  pub availability : List (List ℕ)

unfoldable pub new_tracker : ℕ → Tracker
new_tracker count = record { chunk_count = count; availability = replicate count [] }

-- One round of the loop of UpdateFromBitfield.
unfoldable pub update_row : ℕ → Bool → List ℕ → List ℕ
update_row peer has row = if has then insert_key peer row else delete_key peer row

-- The loop, with `n` rounds left from chunk `i` on; it ends at the first chunk behind the bitfield.
unfoldable pub update_rows : ℕ → ℕ → ℕ → Bytes → List (List ℕ) → List (List ℕ)
unfolding update_row
update_rows zero i peer bf rows = rows
update_rows (suc n) i peer bf rows =
    let next =
      update_rows n (i + 1) peer bf
        (set rows i (update_row peer (bit_at bf i) (get_or rows i []))) in
    if leb (length bf) (i / 8) then rows else next

unfoldable pub update_from_bitfield : ℕ → Bytes → Tracker → Tracker
unfolding update_rows
update_from_bitfield peer bf t = record t {
  availability = update_rows t.chunk_count 0 peer bf t.availability;
}

unfoldable pub remove_peer : ℕ → Tracker → Tracker
remove_peer peer t = record t { availability = map (delete_key peer) t.availability }

unfoldable pub peer_ids_with_chunk : Tracker → ℤ → List ℕ
peer_ids_with_chunk t (negsuc n) = []
peer_ids_with_chunk t (pos i) = if leb t.chunk_count i then [] else get_or t.availability i []

unfoldable pub rarity : Tracker → ℤ → ℕ
rarity t (negsuc n) = 0
rarity t (pos i) = if leb t.chunk_count i then 0 else length (get_or t.availability i [])
