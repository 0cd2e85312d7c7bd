-- ===== src/Protocol/Decode.antt =====
-- internal/protocol/codec.go: the decoders and ReadMessage.
use peerwatch.Base.{ℕ, zero, suc, ◌+◌, ◌*◌, List, [], ◌∷◌}
use peerwatch.Base.Tests.{ltb, ◌==◌, if◌then◌else◌}
use peerwatch.Base.Lists.{length}
use peerwatch.Base.Int.{of_u64}
use peerwatch.Base.Results.{Result, ok, err, panic}
use peerwatch.Base.Results
use peerwatch.Protocol.Slices.{slice, slice_from, byte_at}
use peerwatch.Protocol.Message.{
  Bytes, Message, HandshakeMsg, ChunkInfo, ManifestMsg, PieceMsg, SyncMsg, handshake, manifest,
  bitfield, have, request, piece, cancel, sync, peer_list, keepalive, msg_handshake, msg_manifest,
  msg_bitfield, msg_have, msg_request, msg_piece, msg_cancel, msg_sync, msg_peer_list,
  msg_keepalive,
}
use peerwatch.Protocol.Wire.{ReadError, read_full, be_value}

-- The errors, by the text that `fmt.Errorf` gives them.
pub data DecodeError : Type 0 where
  message_length_zero : DecodeError
  message_too_large unknown_type : ℕ → DecodeError
  too_short : ℕ → DecodeError
  length_read body_read filename_length filename file_size chunk_size chunk_count :
      ReadError → DecodeError
  request_count peer_count : ReadError → DecodeError
  nth_chunk_size nth_chunk_hash nth_index nth_addr_length nth_addr : ℕ → ReadError → DecodeError

-- A read from the stream, which is passed on.
abbrev pub Reader : Type 0 → Type 0
Reader A = Bytes → Result DecodeError (A × Bytes)

infixl 5 ◌>>=◌
abbrev pub ◌>>=◌ : {A B : Type 0} → Reader A → (A → Reader B) → Reader B
◌>>=◌ m f r = elim (m r) [ ok (a, r') ↦ f a r' | err e ↦ err e | panic ↦ panic ]

abbrev pub pure : {A : Type 0} → A → Reader A
pure a r = ok (a, r)

-- io.ReadFull into a slice of `n` bytes, its error wrapped.
unfoldable pub read_bytes : ℕ → (ReadError → DecodeError) → Reader Bytes
read_bytes n w r = elim (read_full n r) [
  | ok (bs, r') ↦ ok (bs, r')
  | err e ↦ err (w e)
  | panic ↦ panic
]

-- binary.Read of an unsigned integer of `n` bytes. So is the digest read, as the number it spells.
unfoldable pub read_uint : ℕ → (ReadError → DecodeError) → Reader ℕ
read_uint n w = read_bytes n w >>= λ bs. pure (be_value bs)

unfoldable pub decode_handshake : Bytes → Result DecodeError HandshakeMsg
decode_handshake bs =
    if ltb (length bs) 17
    then err (too_short (length bs))
    else Results.◌>>=◌ (byte_at 16 bs) (λ version.
      Results.◌>>=◌ (slice 0 16 bs)
        (λ id. ok (record { peer_id = be_value id; version = version })))

-- The loop `for i < ChunkCount`, with `n` rounds left.
unfoldable pub read_chunks : ℕ → ℕ → Reader (List ChunkInfo)
read_chunks zero i = pure []
read_chunks (suc n) i = do
  size ← read_uint 4 (nth_chunk_size i)
  digest ← read_uint 32 (nth_chunk_hash i)
  rest ← read_chunks n (i + 1)
  pure (record { size = size; hash = digest } ∷ rest)

unfoldable pub read_manifest : Reader ManifestMsg
read_manifest = do
  name_length ← read_uint 2 filename_length
  name ← read_bytes name_length filename
  fsize ← read_uint 8 file_size
  csize ← read_uint 8 chunk_size
  count ← read_uint 4 chunk_count
  chunks ← read_chunks count 0
  pure (record {
    file_name = name;
    file_size = of_u64 fsize;
    chunk_size = of_u64 csize;
    chunk_count = count;
    chunks = chunks;
  })

-- The value that a reader gives; the bytes left over are dropped.
abbrev pub run_reader : {A : Type 0} → Reader A → Bytes → Result DecodeError A
run_reader m bs = elim (m bs) [ ok (a, r) ↦ ok a | err e ↦ err e | panic ↦ panic ]

unfoldable pub decode_manifest : Bytes → Result DecodeError ManifestMsg
unfolding read_manifest
decode_manifest = run_reader read_manifest

unfoldable pub decode_bitfield : Bytes → Result DecodeError Bytes
decode_bitfield bs = ok bs

-- decodeHave and decodeCancel.
unfoldable pub decode_uint32_msg : Bytes → Result DecodeError ℕ
decode_uint32_msg bs =
    if ltb (length bs) 4
    then err (too_short (length bs))
    else Results.◌>>=◌ (slice 0 4 bs) (λ index. ok (be_value index))

unfoldable pub read_indices : ℕ → ℕ → Reader (List ℕ)
read_indices zero i = pure []
read_indices (suc n) i = do
  idx ← read_uint 4 (nth_index i)
  rest ← read_indices n (i + 1)
  pure (idx ∷ rest)

unfoldable pub decode_request_batch : Bytes → Result DecodeError (List ℕ)
decode_request_batch bs =
    if ltb (length bs) 4
    then err (too_short (length bs))
    else run_reader (read_uint 4 request_count >>= λ count. read_indices count 0) bs

unfoldable pub decode_piece : Bytes → Result DecodeError PieceMsg
decode_piece bs =
    if ltb (length bs) 4
    then err (too_short (length bs))
    else Results.◌>>=◌ (slice_from 4 bs) (λ payload.
      Results.◌>>=◌ (slice 0 4 bs)
        (λ index. ok (record { chunk_index = be_value index; payload = payload })))

unfoldable pub decode_sync : Bytes → Result DecodeError SyncMsg
decode_sync bs =
    if ltb (length bs) 17
    then err (too_short (length bs))
    else Results.◌>>=◌ (slice 0 8 bs) (λ time. Results.◌>>=◌ (byte_at 8 bs) (λ state.
      Results.◌>>=◌ (slice 9 17 bs) (λ stamp. ok (record {
        playback_time = be_value time;
        state = state;
        unix_ms = of_u64 (be_value stamp);
      }))))

unfoldable pub read_addrs : ℕ → ℕ → Reader (List Bytes)
read_addrs zero i = pure []
read_addrs (suc n) i = do
  addr_length ← read_uint 2 (nth_addr_length i)
  addr ← read_bytes addr_length (nth_addr i)
  rest ← read_addrs n (i + 1)
  pure (addr ∷ rest)

unfoldable pub decode_peer_list : Bytes → Result DecodeError (List Bytes)
decode_peer_list = run_reader (read_uint 4 peer_count >>= λ count. read_addrs count 0)

abbrev pub map_result : {A B : Type 0} → (A → B) → Result DecodeError A → Result DecodeError B
map_result f (ok a) = ok (f a)
map_result f (err e) = err e
map_result f panic = panic

-- The switch of ReadMessage on the type byte.
unfoldable pub decode_payload : ℕ → Bytes → Result DecodeError Message
decode_payload t bs =
    if t == msg_handshake
    then map_result handshake (decode_handshake bs)
    else if t == msg_manifest
    then map_result manifest (decode_manifest bs)
    else if t == msg_bitfield
    then map_result bitfield (decode_bitfield bs)
    else if t == msg_have
    then map_result have (decode_uint32_msg bs)
    else if t == msg_request
    then map_result request (decode_request_batch bs)
    else if t == msg_piece
    then map_result piece (decode_piece bs)
    else if t == msg_cancel
    then map_result cancel (decode_uint32_msg bs)
    else if t == msg_sync
    then map_result sync (decode_sync bs)
    else if t == msg_peer_list
    then map_result peer_list (decode_peer_list bs)
    else if t == msg_keepalive
    then ok keepalive
    else err (unknown_type t)

abbrev pub max_message_size : ℕ
max_message_size = 16 * 1024 * 1024

-- The two tests of ReadMessage on the length prefix.
unfoldable pub check_length : ℕ → Reader ℕ
check_length n r =
    if n == 0
    then err message_length_zero
    else if ltb max_message_size n
    then err (message_too_large n)
    else ok (n, r)

-- data[0] and data[1:], for a slice that is not empty.
unfoldable pub decode_body : Bytes → Result DecodeError Message
decode_body [] = panic
decode_body (t ∷ payload) = decode_payload t payload

abbrev pub with_rest : Bytes → Result DecodeError Message → Result DecodeError (Message × Bytes)
with_rest r (ok m) = ok (m, r)
with_rest r (err e) = err e
with_rest r panic = panic

-- ReadMessage: the message, and what the stream still holds.
unfoldable pub read_message : Reader Message
read_message = do
  prefix ← read_uint 4 length_read
  n ← check_length prefix
  body ← read_bytes n body_read
  λ r. with_rest r (decode_body body)
