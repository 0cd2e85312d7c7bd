-- ===== src/Protocol/Dispatch.antt =====
-- internal/protocol/handler.go: a Handler is its ten methods, on a state of its own.
use peerwatch.Base.{ℕ, List}
use peerwatch.Protocol.Message.{
  Bytes, Message, handshake, manifest, bitfield, have, request, piece, cancel, sync, peer_list,
  keepalive, HandshakeMsg, ManifestMsg, PieceMsg, SyncMsg,
}

pub record Handler (S : Type 0) : Type 0 where
  pub handle_handshake : HandshakeMsg → S → S
  pub handle_manifest : ManifestMsg → S → S
  pub handle_bitfield : Bytes → S → S
  pub handle_have : ℕ → S → S
  pub handle_request : List ℕ → S → S
  pub handle_piece : PieceMsg → S → S
  pub handle_cancel : ℕ → S → S
  pub handle_sync : SyncMsg → S → S
  pub handle_peer_list : List Bytes → S → S
  pub handle_keepalive : S → S

unfoldable pub dispatch : {S : Type 0} → Handler S → Message → S → S
dispatch h (handshake m) = h.handle_handshake m
dispatch h (manifest m) = h.handle_manifest m
dispatch h (bitfield bf) = h.handle_bitfield bf
dispatch h (have i) = h.handle_have i
dispatch h (request is) = h.handle_request is
dispatch h (piece m) = h.handle_piece m
dispatch h (cancel i) = h.handle_cancel i
dispatch h (sync m) = h.handle_sync m
dispatch h (peer_list addrs) = h.handle_peer_list addrs
dispatch h keepalive = h.handle_keepalive
