-- ===== src/Peer/Conversion.antt =====
-- internal/peer/peer.go: ManifestToProto and ProtoToManifest.
use peerwatch.Base.{
  ℕ, zero, suc, ◌+◌, ◌%◌, ◌^◌, ◌<◌, ◌≡◌, refl, sym, ap, ◌∙◌, List, [], ◌∷◌, ◌++◌, map, append-nil,
  append_assoc, arith,
}
use peerwatch.Base.Tests.{ltb, if◌then◌else◌, lt→ltb}
use peerwatch.Base.Lists.{
  length, take, set, replicate, All, length-set, length-replicate, length-map, take_all,
}
use peerwatch.Base.Int.{pos, to_u64}
use peerwatch.Base.Results.{Result, ok, panic, ◌>>=◌}
use peerwatch.Protocol.Message.{ChunkInfo, ManifestMsg}
use peerwatch.Chunk.Manifest.{ChunkMeta, Manifest, empty_meta}

-- for i, c := range cs { out[i] = f(c) }
unfoldable pub fill : {A B E : Type 0} → (A → B) → ℕ → List A → List B → Result E (List B)
fill f i [] out = ok out
fill f i (c ∷ cs) out =
    let rest = fill f (i + 1) cs (set out i (f c)) in if ltb i (length out) then rest else panic

unfoldable pub to_info : ChunkMeta → ChunkInfo
to_info c = record { size = to_u64 c.size % 2 ^ 32; hash = c.hash }

unfoldable pub to_meta : ChunkInfo → ChunkMeta
to_meta c = record { size = pos c.size; hash = c.hash }

unfoldable pub manifest_to_proto : {E : Type 0} → Manifest → Result E ManifestMsg
unfolding fill to_info
manifest_to_proto m =
    fill to_info 0 m.chunks (replicate m.chunk_count (record { size = 0; hash = 0 })) >>= λ chunks.
    ok (record {
      file_name = m.file_name;
      file_size = m.file_size;
      chunk_size = m.chunk_size;
      chunk_count = m.chunk_count % 2 ^ 32;
      chunks = chunks;
    })

unfoldable pub proto_to_manifest : {E : Type 0} → ManifestMsg → Result E Manifest
unfolding fill to_meta
proto_to_manifest msg =
    fill to_meta 0 msg.chunks (replicate msg.chunk_count empty_meta) >>= λ chunks. ok (record {
      file_name = msg.file_name;
      file_size = msg.file_size;
      chunk_size = msg.chunk_size;
      chunk_count = msg.chunk_count;
      chunks = chunks;
    })

take-set_next :
    {A : Type 0} (out : List A) (i : ℕ) (v : A)
    → i < length out
    → take (suc i) (set out i v) ≡ take i out ++ v ∷ []
take-set_next [] i v h = absurd (omega arith)
take-set_next (x ∷ xs) zero v h = refl
take-set_next (x ∷ xs) (suc i) v h = ap (◌∷◌ x) (take-set_next xs i v (omega arith))

-- With room for just the elements, the loop fills in the image of each.
fill_lem :
    {A B E : Type 0} (f : A → B) (i : ℕ) (cs : List A) (out : List B)
    → i + length cs ≡ length out
    → fill {E = E} f i cs out ≡ ok (take i out ++ map f cs)
unfolding fill
fill_lem f i [] out h = ap ok (sym (append-nil (take i out) ∙ take_all out i (omega arith)))
fill_lem f i (c ∷ cs) out h =
    let next : i + 1 ≡ suc i = omega arith in
    let step : take (i + 1) (set out i (f c)) ≡ take i out ++ f c ∷ [] =
      ap (λ k. take k (set out i (f c))) next ∙ take-set_next out i (f c) (omega arith) in
    rw (lt→ltb i (length out) (omega arith)) (
      fill_lem f (i + 1) cs (set out i (f c)) (omega (arith, length-set out i (f c)))
      ∙ ap ok (ap (λ l. l ++ map f cs) step ∙ append_assoc (take i out) (f c ∷ []) (map f cs)))

-- The size of a chunk fits the 32 bits that it has in a message.
abbrev pub IsShort : ChunkMeta → Type 0
IsShort c = (n : ℕ) × (c.size ≡ pos n) × (n < 2 ^ 32)

to_meta-to_info : (cs : List ChunkMeta) → All IsShort cs → map to_meta (map to_info cs) ≡ cs
unfolding to_meta to_info
to_meta-to_info [] h = refl
to_meta-to_info (c ∷ cs) ((n, is, short), h) =
    let size : pos (to_u64 c.size % 2 ^ 32) ≡ c.size = rw is (ap pos (omega arith)) in
    rw (to_meta-to_info cs h) (ap (λ z. record { size = z; hash = c.hash } ∷ cs) size)

-- A manifest that lists as many chunks as it counts, fewer than 2^32 and each shorter than that,
-- comes through ManifestToProto and ProtoToManifest unchanged.
pub proto_to_manifest-manifest_to_proto :
    {E : Type 0} (m : Manifest)
    → length m.chunks ≡ m.chunk_count
    → m.chunk_count < 2 ^ 32
    → All IsShort m.chunks
    → (manifest_to_proto {E = E} m >>= proto_to_manifest) ≡ ok m
unfolding manifest_to_proto proto_to_manifest
proto_to_manifest-manifest_to_proto {E} m counts fits short =
    let n = m.chunk_count in
    let count : n % 2 ^ 32 ≡ n = omega arith in
    rw (
      fill_lem {E = E} to_info 0 m.chunks (replicate n (record { size = 0; hash = 0 })) (
          omega
            (arith, counts, length-replicate {A = ChunkInfo} n (record { size = 0; hash = 0 }))),
      count,
      fill_lem {E = E} to_meta 0 (map to_info m.chunks) (replicate n empty_meta) (
          omega (
            arith,
            counts,
            length-map m.chunks to_info,
            length-replicate {A = ChunkMeta} n empty_meta,
          )),
      to_meta-to_info m.chunks short,
    )
