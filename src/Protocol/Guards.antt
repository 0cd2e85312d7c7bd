-- ===== src/Protocol/Guards.antt =====
-- internal/protocol/codec.go: behind its test of the length, no decoder cuts past the end of its payload.
use peerwatch.Base.{◌≡◌, refl, inl, inr, arith}
use peerwatch.Base.Tests.{ltb, if◌then◌else◌, Bool-cases}
use peerwatch.Base.Lists.{length, take, drop, get_or}
use peerwatch.Base.Int.{of_u64}
use peerwatch.Base.Results.{ok, err}
use peerwatch.Protocol.Message.{Bytes}
use peerwatch.Protocol.Wire.{be_value}
use peerwatch.Protocol.Slices.{slice_within, slice_from_within, byte_at_within}
use peerwatch.Protocol.Decode.{
  DecodeError, too_short, decode_handshake, decode_uint32_msg, decode_piece, decode_sync,
}

pub decode_handshake_lem :
    (bs : Bytes)
    → decode_handshake bs ≡ (
        if ltb (length bs) 17
        then err (too_short (length bs))
        else ok (record { peer_id = be_value (take 16 bs); version = get_or bs 16 0 }))
unfolding decode_handshake
decode_handshake_lem bs = elim (Bool-cases (ltb (length bs) 17)) [
  | inl short ↦ rw short refl
  | inr enough ↦
      rw
        (
          enough,
          byte_at_within {E = DecodeError} 16 bs (ground (arith, enough)),
          slice_within {E = DecodeError} 0 16 bs (ground (arith, enough)),
        )
        refl
]

pub decode_uint32_msg_lem :
    (bs : Bytes)
    → decode_uint32_msg bs
      ≡ (if ltb (length bs) 4 then err (too_short (length bs)) else ok (be_value (take 4 bs)))
unfolding decode_uint32_msg
decode_uint32_msg_lem bs = elim (Bool-cases (ltb (length bs) 4)) [
  | inl short ↦ rw short refl
  | inr enough ↦ rw (enough, slice_within {E = DecodeError} 0 4 bs (ground (arith, enough))) refl
]

pub decode_piece_lem :
    (bs : Bytes)
    → decode_piece bs ≡ (
        if ltb (length bs) 4
        then err (too_short (length bs))
        else ok (record { chunk_index = be_value (take 4 bs); payload = drop 4 bs }))
unfolding decode_piece
decode_piece_lem bs = elim (Bool-cases (ltb (length bs) 4)) [
  | inl short ↦ rw short refl
  | inr enough ↦
      rw
        (
          enough,
          slice_from_within {E = DecodeError} 4 bs (ground (arith, enough)),
          slice_within {E = DecodeError} 0 4 bs (ground (arith, enough)),
        )
        refl
]

pub decode_sync_lem :
    (bs : Bytes)
    → decode_sync bs ≡ (
        if ltb (length bs) 17
        then err (too_short (length bs))
        else ok (record {
          playback_time = be_value (take 8 bs);
          state = get_or bs 8 0;
          unix_ms = of_u64 (be_value (take 8 (drop 9 bs)));
        }))
unfolding decode_sync
decode_sync_lem bs = elim (Bool-cases (ltb (length bs) 17)) [
  | inl short ↦ rw short refl
  | inr enough ↦
      rw
        (
          enough,
          slice_within {E = DecodeError} 0 8 bs (ground (arith, enough)),
          byte_at_within {E = DecodeError} 8 bs (ground (arith, enough)),
          slice_within {E = DecodeError} 9 17 bs (ground (arith, enough)),
        )
        refl
]
