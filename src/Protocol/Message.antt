-- ===== src/Protocol/Message.antt =====
-- internal/protocol/message.go: the messages and their type bytes.
-- A byte string is a list of numbers below 256. The fixed arrays [16]byte (a peer ID) and [32]byte
-- (a SHA-256 digest) are the numbers that they spell in big-endian order. A float64 is its IEEE-754
-- bit pattern, so that math.Float64bits and math.Float64frombits are the identity.
use peerwatch.Base.{ℕ, List}
use peerwatch.Base.Int.{ℤ}

abbrev pub Bytes : Type 0
Bytes = List ℕ

abbrev pub PeerId : Type 0
PeerId = ℕ

abbrev pub Digest : Type 0
Digest = ℕ

abbrev pub Float64 : Type 0
Float64 = ℕ

abbrev pub msg_handshake : ℕ
msg_handshake = 0x01

abbrev pub msg_manifest : ℕ
msg_manifest = 0x02

abbrev pub msg_bitfield : ℕ
msg_bitfield = 0x03

abbrev pub msg_have : ℕ
msg_have = 0x04

abbrev pub msg_request : ℕ
msg_request = 0x05

abbrev pub msg_piece : ℕ
msg_piece = 0x06

abbrev pub msg_cancel : ℕ
msg_cancel = 0x07

abbrev pub msg_sync : ℕ
msg_sync = 0x08

abbrev pub msg_peer_list : ℕ
msg_peer_list = 0x09

abbrev pub msg_keepalive : ℕ
msg_keepalive = 0x0a

pub record HandshakeMsg : Type 0 where
  pub peer_id : PeerId
  pub version : ℕ

pub record ChunkInfo : Type 0 where
  pub size : ℕ
  pub hash : Digest

pub record ManifestMsg : Type 0 where
  pub file_name : Bytes
  pub file_size : ℤ
  pub chunk_size : ℤ
  pub chunk_count : ℕ
  pub chunks : List ChunkInfo

pub record PieceMsg : Type 0 where
  pub chunk_index : ℕ
  pub payload : Bytes

abbrev pub state_paused : ℕ
state_paused = 0

abbrev pub state_playing : ℕ
state_playing = 1

pub record SyncMsg : Type 0 where
  pub playback_time : Float64
  pub state : ℕ
  pub unix_ms : ℤ

-- The implementations of the interface `Message`. The structs with a single field are written out.
pub data Message : Type 0 where
  handshake : HandshakeMsg → Message
  manifest : ManifestMsg → Message
  bitfield : Bytes → Message
  have : ℕ → Message
  request : List ℕ → Message
  piece : PieceMsg → Message
  cancel : ℕ → Message
  sync : SyncMsg → Message
  peer_list : List Bytes → Message
  keepalive : Message

-- The method `Type()` of each.
unfoldable pub message_type : Message → ℕ
message_type (handshake m) = msg_handshake
message_type (manifest m) = msg_manifest
message_type (bitfield bf) = msg_bitfield
message_type (have index) = msg_have
message_type (request indices) = msg_request
message_type (piece m) = msg_piece
message_type (cancel index) = msg_cancel
message_type (sync m) = msg_sync
message_type (peer_list addrs) = msg_peer_list
message_type keepalive = msg_keepalive
