-- ===== src/Joiner/Carrying.antt =====
-- internal/peer/peer.go: messages within their limits come through writeLoop and readLoop.
use peerwatch.Base.{
  ℕ, suc, ◌+◌, ◌<◌, ◌≤◌, ◌*◌, ◌^◌, ◌%◌, ◌≡◌, refl, sym, ◌∙◌, false, List, [], ◌∷◌, ◌++◌, append-nil,
  append_assoc, arith,
}
use peerwatch.Base.Lists.{length, length-append, All, take, take_all}
use peerwatch.Protocol.Message.{Bytes, Message, request}
use peerwatch.Protocol.Encode.{
  frame, encode_payload, encode_indices, encode_piece, encode_request, encode_uint32_msg,
}
use peerwatch.Protocol.Decode.{max_message_size}
use peerwatch.Protocol.Wire.{be_bytes, length-be_bytes}
use peerwatch.Peer.Loops.{write_loop}
use peerwatch.Peer.Delivery.{handled, read_loop-write_loop}
use peerwatch.Peer.Joining.{Travels}
use peerwatch.Chunk.Regions.{length-region}
use peerwatch.Chunk.Chunker.Contents.{region}
use peerwatch.Joiner.Turns.{keep, carried, chunk_message}

handled-keep : (s queue : List Message) → handled keep (λ ms. ms) s queue ≡ s ++ queue
unfolding handled
handled-keep s [] = sym (append-nil s)
handled-keep s (m ∷ queue) = handled-keep (s ++ (m ∷ [])) queue ∙ append_assoc s (m ∷ []) queue

write_loop-whole : (queue : List Message) (out : Bytes) → (write_loop queue [] out).1 ≡ false
unfolding write_loop
write_loop-whole [] out = refl
write_loop-whole (m ∷ queue) out = write_loop-whole queue (out ++ frame m)

pub carried-Travels : (queue : List Message) → All Travels queue → carried queue ≡ queue
unfolding carried
carried-Travels queue fit =
    let (n, e, reads, whole) =
      read_loop-write_loop keep (λ ms. ms) queue [] (suc (length queue)) [] fit (omega arith) in
    rw (reads, carried)
      (handled-keep [] (take n queue) ∙ take_all queue n (whole (write_loop-whole queue [])))

length-encode_indices : (indices : List ℕ) → length (encode_indices indices) ≡ 4 * length indices
unfolding encode_indices encode_uint32_msg
length-encode_indices [] = refl
length-encode_indices (i ∷ indices) = omega (
  arith,
  length-encode_indices indices,
  length-append (be_bytes 4 i) (encode_indices indices),
  length-be_bytes 4 i,
)

pub request-Travels :
    (indices : List ℕ)
    → length indices ≤ 16
    → All (λ i. i < 2 ^ 32) indices
    → Travels (request indices)
unfolding encode_payload encode_request encode_uint32_msg
request-Travels indices few small = (
  (omega arith, small),
  omega (
    arith,
    few,
    length-encode_indices indices,
    length-append (be_bytes 4 (length indices % 2 ^ 32)) (encode_indices indices),
    length-be_bytes 4 (length indices % 2 ^ 32),
  ),
)

pub chunk_message-Travels :
    (orig : Bytes) (cs i : ℕ)
    → i < 2 ^ 32
    → cs + 5 ≤ max_message_size
    → Travels (chunk_message orig cs i)
unfolding encode_payload encode_piece
chunk_message-Travels orig cs i small fits = (
  small,
  omega (
    arith,
    fits,
    length-append (be_bytes 4 i) (region orig cs i),
    length-be_bytes 4 i,
    length-region orig cs i,
  ),
)
