-- ===== src/Protocol/Encode.antt =====
-- internal/protocol/codec.go: the encoders and WriteMessage.
use peerwatch.Base.{ℕ, ◌%◌, ◌^◌, Option, List, [], ◌∷◌, ◌++◌}
use peerwatch.Base.Lists.{length}
use peerwatch.Base.Int.{to_u64}
use peerwatch.Protocol.Message.{
  Bytes, Message, HandshakeMsg, ChunkInfo, ManifestMsg, PieceMsg, SyncMsg, handshake, manifest,
  bitfield, have, request, piece, cancel, sync, peer_list, keepalive, message_type,
}
use peerwatch.Protocol.Wire.{be_bytes}

unfoldable pub encode_handshake : HandshakeMsg → Bytes
encode_handshake m = be_bytes 16 m.peer_id ++ m.version ∷ []

unfoldable pub encode_chunks : List ChunkInfo → Bytes
encode_chunks [] = []
encode_chunks (c ∷ cs) = be_bytes 4 c.size ++ (be_bytes 32 c.hash ++ encode_chunks cs)

unfoldable pub encode_manifest : ManifestMsg → Bytes
encode_manifest m =
    be_bytes 2 (length m.file_name % 2 ^ 16)
    ++ (m.file_name
        ++ (be_bytes 8 (to_u64 m.file_size)
            ++ (be_bytes 8 (to_u64 m.chunk_size)
                ++ (be_bytes 4 m.chunk_count ++ encode_chunks m.chunks))))

unfoldable pub encode_bitfield : Bytes → Bytes
encode_bitfield bf = bf

unfoldable pub encode_uint32_msg : ℕ → Bytes
encode_uint32_msg v = be_bytes 4 v

unfoldable pub encode_indices : List ℕ → Bytes
encode_indices [] = []
encode_indices (idx ∷ indices) = encode_uint32_msg idx ++ encode_indices indices

unfoldable pub encode_request : List ℕ → Bytes
encode_request indices = encode_uint32_msg (length indices % 2 ^ 32) ++ encode_indices indices

unfoldable pub encode_piece : PieceMsg → Bytes
encode_piece m = be_bytes 4 m.chunk_index ++ m.payload

unfoldable pub encode_sync : SyncMsg → Bytes
encode_sync m = be_bytes 8 m.playback_time ++ (m.state ∷ be_bytes 8 (to_u64 m.unix_ms))

unfoldable pub encode_addrs : List Bytes → Bytes
encode_addrs [] = []
encode_addrs (addr ∷ addrs) = be_bytes 2 (length addr % 2 ^ 16) ++ (addr ++ encode_addrs addrs)

unfoldable pub encode_peer_list : List Bytes → Bytes
encode_peer_list addrs = encode_uint32_msg (length addrs % 2 ^ 32) ++ encode_addrs addrs

-- The type switch of WriteMessage. Every implementation of `Message` has a case.
unfoldable pub encode_payload : Message → Bytes
unfolding encode_handshake encode_manifest encode_bitfield encode_uint32_msg encode_request
    encode_piece encode_sync encode_peer_list
encode_payload (handshake m) = encode_handshake m
encode_payload (manifest m) = encode_manifest m
encode_payload (bitfield bf) = encode_bitfield bf
encode_payload (have index) = encode_uint32_msg index
encode_payload (request indices) = encode_request indices
encode_payload (piece m) = encode_piece m
encode_payload (cancel index) = encode_uint32_msg index
encode_payload (sync m) = encode_sync m
encode_payload (peer_list addrs) = encode_peer_list addrs
encode_payload keepalive = []

-- The packet: five bytes of header are reserved, the payload follows, and the header is filled in
-- with the length of all but the first four bytes.
unfoldable pub frame : Message → Bytes
frame m = let body = message_type m ∷ encode_payload m in be_bytes 4 (length body % 2 ^ 32) ++ body

-- WriteMessage on a writer whose Write takes the whole packet and may fail.
module _ {ℓ κ} {Writer : Type ℓ} {Failure : Type κ}
    (write : Writer → Bytes → Writer × Option Failure) where
  unfoldable pub write_message : Writer → Message → Writer × Option Failure
  write_message w m = write w (frame m)
