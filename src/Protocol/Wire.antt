-- ===== src/Protocol/Wire.antt =====
-- What internal/protocol/codec.go takes from encoding/binary and io: big-endian integers, and
-- full reads from a stream. A reader is the list of the bytes that arrive before its end.
use peerwatch.Base.{
  ℕ, zero, suc, ◌+◌, ◌*◌, ◌/◌, ◌%◌, ◌^◌, ◌<◌, ◌≡◌, refl, ◌∙◌, [], ◌∷◌, ◌++◌, arith,
}
use peerwatch.Base.Tests.{ltb, if◌then◌else◌}
use peerwatch.Base.Lists.{length, take, drop, length-append, take-append_self, drop-append_self}
use peerwatch.Base.Results.{Result, ok, err}
use peerwatch.Protocol.Message.{Bytes}
use native.Mathlib.Nat.{pow-suc}

-- binary.BigEndian.PutUint16, PutUint32, PutUint64: the low `k` bytes of `n`, highest first.
unfoldable pub be_bytes : ℕ → ℕ → Bytes
be_bytes zero n = []
be_bytes (suc k) n = be_bytes k (n / 256) ++ (n % 256) ∷ []

-- binary.BigEndian.Uint16, Uint32, Uint64.
unfoldable pub be_value_from : ℕ → Bytes → ℕ
be_value_from acc [] = acc
be_value_from acc (b ∷ bs) = be_value_from (acc * 256 + b) bs

unfoldable pub be_value : Bytes → ℕ
unfolding be_value_from
be_value bs = be_value_from 0 bs

pub data ReadError : Type 0 where
  eof unexpected_eof : ReadError

-- io.ReadFull: io.EOF if nothing could be read, io.ErrUnexpectedEOF if the stream ends within.
unfoldable pub read_full : ℕ → Bytes → Result ReadError (Bytes × Bytes)
read_full zero r = ok ([], r)
read_full (suc n) [] = err eof
read_full (suc n) (b ∷ r) =
    if ltb (length (b ∷ r)) (suc n)
    then err unexpected_eof
    else ok (take (suc n) (b ∷ r), drop (suc n) (b ∷ r))

pub length-be_bytes : (k n : ℕ) → length (be_bytes k n) ≡ k
unfolding be_bytes
length-be_bytes zero n = refl
length-be_bytes (suc k) n =
    omega
      (arith, length-append (be_bytes k (n / 256)) ((n % 256) ∷ []), length-be_bytes k (n / 256))

be_value_from-append :
    (acc : ℕ) (xs ys : Bytes)
    → be_value_from acc (xs ++ ys) ≡ be_value_from (be_value_from acc xs) ys
unfolding be_value_from
be_value_from-append acc [] ys = refl
be_value_from-append acc (x ∷ xs) ys = be_value_from-append (acc * 256 + x) xs ys

-- A number that fits `k` bytes is read back.
pub be_value-be_bytes : (k n : ℕ) → n < 256 ^ k → be_value (be_bytes k n) ≡ n
unfolding be_value be_bytes
be_value-be_bytes zero n h = omega arith
be_value-be_bytes (suc k) n h =
    be_value_from-append 0 (be_bytes k (n / 256)) ((n % 256) ∷ [])
    ∙ omega (arith, be_value-be_bytes k (n / 256) (omega (arith, pow-suc 256 k)))

-- What was written is read in full, and the rest of the stream stays.
pub read_full-append :
    (xs rest : Bytes) (n : ℕ) → n ≡ length xs → read_full n (xs ++ rest) ≡ ok (xs, rest)
unfolding read_full
read_full-append [] rest zero e = refl
read_full-append [] rest (suc n) e = absurd (omega arith)
read_full-append (x ∷ xs) rest zero e = absurd (omega arith)
read_full-append (x ∷ xs) rest (suc n) e =
    ground (arith, length-append xs rest, take-append_self xs rest n, drop-append_self xs rest n)
