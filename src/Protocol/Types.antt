-- ===== src/Protocol/Types.antt =====
-- internal/protocol/codec.go: the fields of a message that ReadMessage gives are in the ranges of their Go
-- types, whatever bytes arrive, and ReadMessage does not panic.
use peerwatch.Base.{
  ℕ, zero, suc, ◌+◌, ◌*◌, ◌^◌, ◌≤◌, ◌<◌, ◌≡◌, refl, sym, ap, ◌∙◌, subst, inl, inr, [], ◌∷◌, arith,
}
use peerwatch.Base.Tests.{ltb, Bool-cases}
use peerwatch.Base.Lists.{length, take, drop, All, length-take}
use peerwatch.Base.Int.{IsInt64, of_u64}
use native.Mathlib.Nat.{mul_assoc, mul_right_comm, pow-suc, pow-le-pow_right, mul-le-mul_right}
use peerwatch.Base.Results.{Result, ok, err, panic}
use peerwatch.Base.Lists.{get_or}
use peerwatch.Protocol.Message.{
  ManifestMsg, Message, handshake, manifest, bitfield, have, request, piece, cancel, sync,
  peer_list, keepalive,
}
use peerwatch.Protocol.RoundTrip.{IsMessage}
use peerwatch.Protocol.Message.{Bytes}
use peerwatch.Protocol.Wire.{ReadError, read_full, be_value, be_value_from}
use peerwatch.Protocol.Decode.{
  DecodeError, Reader, ◌>>=◌, read_bytes, read_uint, read_chunks, read_manifest,
}
use peerwatch.Protocol.RoundTrip.{IsChunkInfo, IsManifest}
use peerwatch.Protocol.Progress.{after, bind_after}

abbrev pub AreBytes : Bytes → Type 0
AreBytes bs = All (λ b. b < 256) bs

pub get_or-byte : (i : ℕ) (bs : Bytes) → AreBytes bs → get_or bs i 0 < 256
get_or-byte i [] h = omega arith
get_or-byte zero (b ∷ bs) (here, h) = here
get_or-byte (suc i) (b ∷ bs) (here, h) = get_or-byte i bs h

-- A reader's result is no panic, and a value has the property; what is left over are bytes.
abbrev pub Typed : {E A : Type 0} → (A → Type 0) → Result E (A × Bytes) → Type 0
Typed P (ok (a, rest)) = P a × AreBytes rest
Typed P (err e) = Unit
Typed P panic = ⊥

pub take-AreBytes : (n : ℕ) (bs : Bytes) → AreBytes bs → AreBytes (take n bs)
take-AreBytes zero bs h = tt
take-AreBytes (suc n) [] h = tt
take-AreBytes (suc n) (b ∷ bs) (here, h) = (here, take-AreBytes n bs h)

pub drop-AreBytes : (n : ℕ) (bs : Bytes) → AreBytes bs → AreBytes (drop n bs)
drop-AreBytes zero bs h = h
drop-AreBytes (suc n) [] h = tt
drop-AreBytes (suc n) (b ∷ bs) (here, h) = drop-AreBytes n bs h

read_full-Typed :
    (n : ℕ) (r : Bytes) → AreBytes r → Typed (λ bs. (length bs ≡ n) × AreBytes bs) (read_full n r)
unfolding read_full
read_full-Typed zero r h = ((refl, tt), h)
read_full-Typed (suc n) [] h = tt
read_full-Typed (suc n) (b ∷ r) h = elim (Bool-cases (ltb (length (b ∷ r)) (suc n))) [
  | inl short ↦ rw short tt
  | inr enough ↦ rw enough (
    (ground (arith, enough, length-take (suc n) (b ∷ r)), take-AreBytes (suc n) (b ∷ r) h),
    drop-AreBytes (suc n) (b ∷ r) h,
  )
]

pub read_bytes-Typed :
    (n : ℕ) (w : ReadError → DecodeError) (r : Bytes)
    → AreBytes r
    → Typed (λ bs. (length bs ≡ n) × AreBytes bs) (read_bytes n w r)
unfolding read_bytes
read_bytes-Typed n w r h = go (read_full n r) (read_full-Typed n r h)
  where
    go :
        (x : Result ReadError (Bytes × Bytes))
        → Typed (λ bs. (length bs ≡ n) × AreBytes bs) x
        → Typed
            (λ bs. (length bs ≡ n) × AreBytes bs)
            (elim x as (λ _. Result DecodeError (Bytes × Bytes)) [
              | ok (bs, r') ↦ ok (bs, r')
              | err e ↦ err (w e)
              | panic ↦ panic
            ])
    go (ok (bs, r')) c = c
    go (err e) c = tt
    go panic c = c

after-Typed :
    {A B : Type 0} (P : A → Type 0) (Q : B → Type 0) (f : A → Reader B)
    (x : Result DecodeError (A × Bytes))
    → Typed P x
    → ((a : A) (r : Bytes) → P a → AreBytes r → Typed Q (f a r))
    → Typed Q (after f x)
unfolding after
after-Typed P Q f (ok (a, r)) (p, h) d = d a r p h
after-Typed P Q f (err e) c d = tt
after-Typed P Q f panic c d = c

-- One reader behind another.
pub bind-Typed :
    {A B : Type 0} (P : A → Type 0) (Q : B → Type 0) (m : Reader A) (f : A → Reader B) (r : Bytes)
    → Typed P (m r)
    → ((a : A) (r' : Bytes) → P a → AreBytes r' → Typed Q (f a r'))
    → Typed Q ((m >>= f) r)
bind-Typed P Q m f r c d = subst (Typed Q) (sym (bind_after m f r)) (after-Typed P Q f (m r) c d)

be_value_from-lt :
    (acc : ℕ) (bs : Bytes) → AreBytes bs → be_value_from acc bs < (acc + 1) * 256 ^ length bs
unfolding be_value_from
be_value_from-lt acc [] h = let p : 256 ^ 0 ≡ 1 = refl in omega (arith, p)
be_value_from-lt acc (b ∷ bs) (here, h) =
    let rest = be_value_from-lt (acc * 256 + b) bs h in
    let p : 256 ^ length (b ∷ bs) ≡ 256 ^ length bs * 256 = pow-suc 256 (length bs) in
    let m : (acc * 256 + b + 1) * 256 ^ length bs ≤ ((acc + 1) * 256) * 256 ^ length bs =
      mul-le-mul_right (256 ^ length bs) (omega arith) in
    let q : (acc + 1) * (256 ^ length bs * 256) ≡ (acc + 1) * 256 * 256 ^ length bs =
      sym (mul_assoc (acc + 1) (256 ^ length bs) 256)
      ∙ mul_right_comm (acc + 1) (256 ^ length bs) 256 in
    rw p (omega (arith, rest, m, q))

pub be_value-lt : (n : ℕ) (bs : Bytes) → length bs ≤ n → AreBytes bs → be_value bs < 256 ^ n
unfolding be_value
be_value-lt n bs e h =
    let l : 256 ^ length bs ≤ 256 ^ n = pow-le-pow_right (omega arith) e in
    omega (arith, be_value_from-lt 0 bs h, l)

-- An unsigned integer of `n` bytes.
pub read_uint-Typed :
    (n : ℕ) (w : ReadError → DecodeError) (r : Bytes)
    → AreBytes r
    → Typed (λ v. v < 256 ^ n) (read_uint n w r)
unfolding read_uint
read_uint-Typed n w r h =
    bind-Typed (λ bs. (length bs ≡ n) × AreBytes bs) (λ v. v < 256 ^ n) (read_bytes n w) _ r
      (read_bytes-Typed n w r h) (λ bs r' is h'. (be_value-lt n bs (omega (arith, is.0)) is.1, h'))

read_chunks-Typed :
    (n i : ℕ) (r : Bytes)
    → AreBytes r
    → Typed (λ cs. (n ≡ length cs) × All IsChunkInfo cs) (read_chunks n i r)
unfolding read_chunks
read_chunks-Typed zero i r h = ((refl, tt), h)
read_chunks-Typed (suc n) i r h =
    bind-Typed (λ v. v < 256 ^ 4) _ (read_uint 4 _) _ r (read_uint-Typed 4 _ r h)
      (λ size r₁ s h₁.
        bind-Typed (λ v. v < 256 ^ 32) _ (read_uint 32 _) _ r₁ (read_uint-Typed 32 _ r₁ h₁)
          (λ digest r₂ d h₂.
            bind-Typed (λ cs. (n ≡ length cs) × All IsChunkInfo cs) _ (read_chunks n (i + 1)) _ r₂
              (read_chunks-Typed n (i + 1) r₂ h₂)
              (λ rest r₃ c h₃. ((ap suc c.0, (record { size_fits = s; hash_fits = d }, c.1)), h₃))))

pub of_u64-IsInt64 : (u : ℕ) → u < 2 ^ 64 → IsInt64 (of_u64 u)
of_u64-IsInt64 u h = elim (Bool-cases (ltb u (2 ^ 63))) [
  | inl low ↦ rw low (ground (arith, low))
  | inr high ↦ rw high (ground (arith, high))
]

-- The fields that are bytes, or texts of bytes.
abbrev pub HasBytes : Message → Type 0
HasBytes (handshake m) = m.version < 256
HasBytes (manifest m) = AreBytes m.file_name
HasBytes (bitfield bf) = AreBytes bf
HasBytes (have index) = Unit
HasBytes (request indices) = Unit
HasBytes (piece m) = AreBytes m.payload
HasBytes (cancel index) = Unit
HasBytes (sync m) = m.state < 256
HasBytes (peer_list addrs) = All AreBytes addrs
HasBytes keepalive = Unit

-- Each field is in the range of its Go type, each length in that of its prefix.
abbrev pub IsTyped : Message → Type 0
IsTyped m = IsMessage m × HasBytes m

abbrev pub IsTypedManifest : ManifestMsg → Type 0
IsTypedManifest m = IsManifest m × AreBytes m.file_name

pub read_manifest-Typed : (r : Bytes) → AreBytes r → Typed IsTypedManifest (read_manifest r)
unfolding read_manifest
read_manifest-Typed r h =
    bind-Typed (λ v. v < 256 ^ 2) IsTypedManifest (read_uint 2 _) _ r (read_uint-Typed 2 _ r h)
      (λ k r₁ s h₁.
        bind-Typed (λ bs. (length bs ≡ k) × AreBytes bs) IsTypedManifest (read_bytes k _) _ r₁
          (read_bytes-Typed k _ r₁ h₁)
          (λ nm r₂ named h₂.
            bind-Typed (λ v. v < 256 ^ 8) IsTypedManifest (read_uint 8 _) _ r₂
              (read_uint-Typed 8 _ r₂ h₂)
              (λ fs r₃ f h₃.
                bind-Typed (λ v. v < 256 ^ 8) IsTypedManifest (read_uint 8 _) _ r₃
                  (read_uint-Typed 8 _ r₃ h₃)
                  (λ chunk r₄ c h₄.
                    bind-Typed (λ v. v < 256 ^ 4) IsTypedManifest (read_uint 4 _) _ r₄
                      (read_uint-Typed 4 _ r₄ h₄)
                      (λ count r₅ n h₅.
                        bind-Typed (λ cs. (count ≡ length cs) × All IsChunkInfo cs) IsTypedManifest
                          (read_chunks count 0) _ r₅ (read_chunks-Typed count 0 r₅ h₅)
                          (λ cs r₆ all h₆. (
                            (
                              record {
                                name_fits = omega (arith, named.0, s);
                                size_fits = of_u64-IsInt64 fs f;
                                chunk_fits = of_u64-IsInt64 chunk c;
                                count_fits = n;
                                count_agrees = all.0;
                                chunks_fit = all.1;
                              },
                              named.1,
                            ),
                            h₆,
                          )))))))
