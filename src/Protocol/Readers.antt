-- ===== src/Protocol/Readers.antt =====
-- Readers on a stream that begins with what the encoders write: the rules by which the round trips
-- of the decoders are put together.
use peerwatch.Base.{ℕ, ◌^◌, ◌<◌, ◌≡◌, sym, ap, ◌++◌, append-nil, append_assoc, []}
use peerwatch.Base.Lists.{length}
use peerwatch.Base.Results.{ok}
use peerwatch.Protocol.Message.{Bytes}
use peerwatch.Protocol.Wire.{
  ReadError, be_bytes, length-be_bytes, be_value-be_bytes, read_full-append,
}
use peerwatch.Protocol.Decode.{DecodeError, Reader, ◌>>=◌, pure, read_bytes, read_uint, run_reader}

-- The reader takes exactly `xs` and gives `a`, whatever follows.
pub record Parses {A : Type 0} (m : Reader A) (xs : Bytes) (a : A) : Type 0 where
  pub takes : (rest : Bytes) → m (xs ++ rest) ≡ ok (a, rest)

module _ {A B : Type 0} where
  pub bind-Parses :
      {m : Reader A} (f : A → Reader B) {xs ys : Bytes} {a : A} {b : B}
      → Parses m xs a
      → Parses (f a) ys b
      → Parses (m >>= f) (xs ++ ys) b
  bind-Parses f {xs} {ys} p q = record {
    takes = λ rest. rw (append_assoc, p.takes (ys ++ rest), ◌>>=◌) (q.takes rest);
  }

  -- The last read of a decoder, whose value goes into the result.
  pub map-Parses :
      {m : Reader A} (g : A → B) {xs : Bytes} {a : A}
      → Parses m xs a
      → Parses (m >>= λ x. pure (g x)) xs (g a)
  map-Parses g p = record { takes = λ rest. rw (p.takes rest, ◌>>=◌) }

pub read_bytes-Parses :
    (n : ℕ) (w : ReadError → DecodeError) (xs : Bytes)
    → n ≡ length xs
    → Parses (read_bytes n w) xs xs
unfolding read_bytes
read_bytes-Parses n w xs e = record {
  takes = λ rest. rw (read_full-append xs rest n e, read_bytes);
}

pub read_uint-Parses :
    (k : ℕ) (w : ReadError → DecodeError) (v : ℕ)
    → v < 256 ^ k
    → Parses (read_uint k w) (be_bytes k v) v
unfolding read_uint
read_uint-Parses k w v h = record {
  takes = λ rest.
      rw
        (
          (read_bytes-Parses k w (be_bytes k v) (sym (length-be_bytes k v))).takes rest,
          read_uint,
          ◌>>=◌,
        )
        (ap (λ n. ok (n, rest)) (be_value-be_bytes k v h));
}

pub run-Parses :
    {A : Type 0} {m : Reader A} {xs : Bytes} {a : A} → Parses m xs a → run_reader m xs ≡ ok a
run-Parses {m} {xs} {a} p =
    let e : m xs ≡ ok (a, []) = rw append-nil at (p.takes []) in rw (e, run_reader)
