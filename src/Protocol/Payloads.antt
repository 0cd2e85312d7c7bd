-- ===== src/Protocol/Payloads.antt =====
-- internal/protocol/codec.go: what each decoder gives of a payload of any bytes.
use peerwatch.Base.{ℕ, zero, suc, ◌+◌, ◌^◌, ◌<◌, ◌≡◌, refl, ap, Bool, true, false, List, arith}
use peerwatch.Base.Tests.{ltb, if◌then◌else◌}
use peerwatch.Base.Lists.{length, take, drop, All, length-take}
use peerwatch.Base.Results.{Result, ok, err, panic}
use peerwatch.Protocol.Message.{
  Bytes, Message, handshake, manifest, request, piece, sync, peer_list,
}
use peerwatch.Protocol.Wire.{be_value}
use peerwatch.Protocol.Decode.{
  DecodeError, Reader, ◌>>=◌, read_uint, read_bytes, decode_handshake, decode_manifest,
  decode_uint32_msg, decode_request_batch, decode_piece, decode_sync, decode_peer_list,
  read_indices, read_addrs, read_manifest, run_reader, map_result, request_count, peer_count,
}
use peerwatch.Protocol.Guards.{
  decode_handshake_lem, decode_uint32_msg_lem, decode_piece_lem, decode_sync_lem,
}
use peerwatch.Base.{[], ◌∷◌}
use peerwatch.Protocol.Types.{
  AreBytes, IsTyped, IsTypedManifest, get_or-byte, Typed, take-AreBytes, drop-AreBytes,
  read_bytes-Typed, bind-Typed, be_value-lt, read_uint-Typed, read_manifest-Typed, of_u64-IsInt64,
}

-- A result is no panic, and a value has the property.
abbrev pub Legal : {A : Type 0} → (A → Type 0) → Result DecodeError A → Type 0
Legal P (ok a) = P a
Legal P (err e) = Unit
Legal P panic = ⊥

pub if-Legal :
    {A : Type 0} (P : A → Type 0) (b : Bool) (x y : Result DecodeError A)
    → Legal P x
    → Legal P y
    → Legal P (if b then x else y)
if-Legal P true x y h k = h
if-Legal P false x y h k = k

map_result-Legal :
    {A B : Type 0} (P : A → Type 0) (Q : B → Type 0) (f : A → B) (x : Result DecodeError A)
    → Legal P x
    → ((a : A) → P a → Q (f a))
    → Legal Q (map_result f x)
map_result-Legal P Q f (ok a) h k = k a h
map_result-Legal P Q f (err e) h k = tt
map_result-Legal P Q f panic h k = h

run_reader-Legal :
    {A : Type 0} (P : A → Type 0) (m : Reader A) (bs : Bytes)
    → Typed P (m bs)
    → Legal P (run_reader m bs)
run_reader-Legal {A} P m bs h = go (m bs) h
  where
    go :
        (x : Result DecodeError (A × Bytes))
        → Typed P x
        → Legal P (elim x as (λ _. Result DecodeError A) [
          | ok (a, r) ↦ ok a
          | err e ↦ err e
          | panic ↦ panic
        ])
    go (ok (a, r)) c = c.0
    go (err e) c = tt
    go panic c = c

-- A number at the front of a payload, or behind `o` of its bytes.
field-lt : (k o : ℕ) (bs : Bytes) → AreBytes bs → be_value (take k (drop o bs)) < 256 ^ k
field-lt k o bs h =
    be_value-lt k (take k (drop o bs)) (omega (arith, length-take k (drop o bs)))
      (take-AreBytes k (drop o bs) (drop-AreBytes o bs h))

decode_uint32_msg-Legal :
    (bs : Bytes) → AreBytes bs → Legal (λ v. v < 2 ^ 32) (decode_uint32_msg bs)
decode_uint32_msg-Legal bs h =
    rw (decode_uint32_msg_lem bs)
      (if-Legal (λ v. v < 2 ^ 32) (ltb (length bs) 4) _ _ tt (field-lt 4 0 bs h))

read_indices-Typed :
    (n i : ℕ) (r : Bytes)
    → AreBytes r
    → Typed (λ is. (length is ≡ n) × All (λ idx. idx < 2 ^ 32) is) (read_indices n i r)
unfolding read_indices
read_indices-Typed zero i r h = ((refl, tt), h)
read_indices-Typed (suc n) i r h =
    bind-Typed (λ v. v < 256 ^ 4) _ (read_uint 4 _) _ r (read_uint-Typed 4 _ r h)
      (λ idx r₁ s h₁.
        bind-Typed (λ is. (length is ≡ n) × All (λ idx. idx < 2 ^ 32) is) _ (read_indices n (i + 1))
          _ r₁ (read_indices-Typed n (i + 1) r₁ h₁) (λ rest r₂ c h₂. ((ap suc c.0, (s, c.1)), h₂)))

-- An address of a PEER_LIST.
abbrev IsAddr : Bytes → Type 0
IsAddr addr = (length addr < 2 ^ 16) × AreBytes addr

All-both : (l : List Bytes) → All IsAddr l → All (λ addr. length addr < 2 ^ 16) l × All AreBytes l
All-both [] h = (tt, tt)
All-both (addr ∷ l) ((short, text), h) =
    let (lengths, texts) = All-both l h in ((short, lengths), (text, texts))

read_addrs-Typed :
    (n i : ℕ) (r : Bytes)
    → AreBytes r
    → Typed (λ l. (length l ≡ n) × All IsAddr l) (read_addrs n i r)
unfolding read_addrs
read_addrs-Typed zero i r h = ((refl, tt), h)
read_addrs-Typed (suc n) i r h =
    bind-Typed (λ v. v < 256 ^ 2) _ (read_uint 2 _) _ r (read_uint-Typed 2 _ r h)
      (λ k r₁ s h₁.
        bind-Typed (λ bs. (length bs ≡ k) × AreBytes bs) _ (read_bytes k _) _ r₁
          (read_bytes-Typed k _ r₁ h₁)
          (λ addr r₂ named h₂.
            bind-Typed (λ l. (length l ≡ n) × All IsAddr l) _ (read_addrs n (i + 1)) _ r₂
              (read_addrs-Typed n (i + 1) r₂ h₂)
              (λ rest r₃ c h₃. ((ap suc c.0, ((omega (arith, named.0, s), named.1), c.1)), h₃))))

-- As many elements as a prefix of four bytes says.
few :
    {A : Type 0} (P : List A → Type 0) (n : ℕ) (x : Result DecodeError (List A × Bytes))
    → n < 256 ^ 4
    → Typed (λ l. (length l ≡ n) × P l) x
    → Typed (λ l. (length l < 2 ^ 32) × P l) x
few P n (ok (l, r)) h ((is, p), k) = ((omega arith, p), k)
few P n (err e) h c = tt
few P n panic h c = c

pub handshake-Legal :
    (bs : Bytes) → AreBytes bs → Legal IsTyped (map_result handshake (decode_handshake bs))
handshake-Legal bs h = rw (decode_handshake_lem bs) (
    map_result-Legal (λ m. IsTyped (handshake m)) IsTyped handshake _
      (if-Legal (λ m. IsTyped (handshake m)) (ltb (length bs) 17) _ _ tt
        (field-lt 16 0 bs h, get_or-byte 16 bs h))
      (λ m p. p))

pub manifest-Legal :
    (bs : Bytes) → AreBytes bs → Legal IsTyped (map_result manifest (decode_manifest bs))
unfolding decode_manifest
manifest-Legal bs h =
    map_result-Legal IsTypedManifest IsTyped manifest (decode_manifest bs)
      (run_reader-Legal IsTypedManifest read_manifest bs (read_manifest-Typed bs h)) (λ m p. p)

pub uint32-Legal :
    (f : ℕ → Message) (bs : Bytes)
    → ((v : ℕ) → v < 2 ^ 32 → IsTyped (f v))
    → AreBytes bs
    → Legal IsTyped (map_result f (decode_uint32_msg bs))
uint32-Legal f bs k h =
    map_result-Legal (λ v. v < 2 ^ 32) IsTyped f (decode_uint32_msg bs)
      (decode_uint32_msg-Legal bs h) k

pub request-Legal :
    (bs : Bytes) → AreBytes bs → Legal IsTyped (map_result request (decode_request_batch bs))
unfolding decode_request_batch
request-Legal bs h =
    map_result-Legal (λ l. (length l < 2 ^ 32) × All (λ idx. idx < 2 ^ 32) l) IsTyped request
      (decode_request_batch bs)
      (if-Legal (λ l. (length l < 2 ^ 32) × All (λ idx. idx < 2 ^ 32) l) (ltb (length bs) 4) _ _ tt
        (run_reader-Legal (λ l. (length l < 2 ^ 32) × All (λ idx. idx < 2 ^ 32) l)
          (read_uint 4 request_count >>= λ count. read_indices count 0) bs
          (bind-Typed (λ v. v < 256 ^ 4) _ (read_uint 4 request_count) _ bs
            (read_uint-Typed 4 request_count bs h)
            (λ n r s k.
              few (All (λ idx. idx < 2 ^ 32)) n (read_indices n 0 r) s
                (read_indices-Typed n 0 r k)))))
      (λ l p. (p, tt))

pub piece-Legal : (bs : Bytes) → AreBytes bs → Legal IsTyped (map_result piece (decode_piece bs))
piece-Legal bs h = rw (decode_piece_lem bs) (
    map_result-Legal (λ m. IsTyped (piece m)) IsTyped piece _
      (if-Legal (λ m. IsTyped (piece m)) (ltb (length bs) 4) _ _ tt
        (field-lt 4 0 bs h, drop-AreBytes 4 bs h))
      (λ m p. p))

pub sync-Legal : (bs : Bytes) → AreBytes bs → Legal IsTyped (map_result sync (decode_sync bs))
sync-Legal bs h = rw (decode_sync_lem bs) (
    map_result-Legal (λ m. IsTyped (sync m)) IsTyped sync _
      (if-Legal (λ m. IsTyped (sync m)) (ltb (length bs) 17) _ _ tt
        ((field-lt 8 0 bs h, of_u64-IsInt64 _ (field-lt 8 9 bs h)), get_or-byte 8 bs h))
      (λ m p. p))

pub peer_list-Legal :
    (bs : Bytes) → AreBytes bs → Legal IsTyped (map_result peer_list (decode_peer_list bs))
unfolding decode_peer_list
peer_list-Legal bs h =
    map_result-Legal (λ l. (length l < 2 ^ 32) × All IsAddr l) IsTyped peer_list
      (decode_peer_list bs)
      (run_reader-Legal (λ l. (length l < 2 ^ 32) × All IsAddr l)
        (read_uint 4 peer_count >>= λ count. read_addrs count 0) bs
        (bind-Typed (λ v. v < 256 ^ 4) (λ l. (length l < 2 ^ 32) × All IsAddr l)
          (read_uint 4 peer_count) _ bs (read_uint-Typed 4 peer_count bs h)
          (λ n r s k. few (All IsAddr) n (read_addrs n 0 r) s (read_addrs-Typed n 0 r k))))
      (λ l p. let (lengths, texts) = All-both l p.1 in ((p.0, lengths), texts))
