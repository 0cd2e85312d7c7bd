-- ===== src/Protocol/RoundTrip/Loops.antt =====
-- The round trips of the parts of a message that are read from a stream: the loops over chunks,
-- indices and addresses, and the manifest.
use peerwatch.Base.{ℕ, ◌+◌, ◌%◌, ◌^◌, ◌<◌, ◌≡◌, refl, sym, subst, List, [], ◌∷◌, arith}
use peerwatch.Base.Lists.{length, All}
use peerwatch.Base.Int.{IsInt64, to_u64, of_u64, of_u64-to_u64, to_u64-lt}
use peerwatch.Protocol.Message.{Bytes, ChunkInfo, ManifestMsg}
use native.Mathlib.Nat.{mod-eq_of_lt}
use peerwatch.Protocol.Wire.{ReadError, be_bytes}
use peerwatch.Protocol.Encode.{
  encode_chunks, encode_manifest, encode_uint32_msg, encode_indices, encode_addrs,
}
use peerwatch.Protocol.Decode.{
  DecodeError, pure, read_uint, read_chunks, read_manifest, read_indices, read_addrs,
}
use peerwatch.Protocol.Readers.{
  Parses, bind-Parses, map-Parses, read_bytes-Parses, read_uint-Parses,
}

pub record IsChunkInfo (c : ChunkInfo) : Type 0 where
  pub size_fits : c.size < 2 ^ 32
  pub hash_fits : c.hash < 2 ^ 256

-- The fields of a Go ManifestMsg whose chunk list has the announced length.
pub record IsManifest (m : ManifestMsg) : Type 0 where
  pub name_fits : length m.file_name < 2 ^ 16
  pub size_fits : IsInt64 m.file_size
  pub chunk_fits : IsInt64 m.chunk_size
  pub count_fits : m.chunk_count < 2 ^ 32
  pub count_agrees : m.chunk_count ≡ length m.chunks
  pub chunks_fit : All IsChunkInfo m.chunks

done-Parses : {A : Type 0} (a : A) → Parses (pure a) [] a
done-Parses a = record { takes = λ rest. refl }

-- A length that fits its field, as the encoder writes it.
pub read_length-Parses :
    (k : ℕ) (w : ReadError → DecodeError) (n : ℕ)
    → n < 256 ^ k
    → Parses (read_uint k w) (be_bytes k (n % 256 ^ k)) n
read_length-Parses k w n h =
    let e : n % 256 ^ k ≡ n = mod-eq_of_lt h in rw e (read_uint-Parses k w n h)

read_chunks-Parses :
    (cs : List ChunkInfo) (i : ℕ)
    → All IsChunkInfo cs
    → Parses (read_chunks (length cs) i) (encode_chunks cs) cs
unfolding read_chunks encode_chunks
read_chunks-Parses [] i h = done-Parses []
read_chunks-Parses (c ∷ cs) i (h, hs) = bind-Parses _ (read_uint-Parses 4 _ c.size h.size_fits) (
    bind-Parses _ (read_uint-Parses 32 _ c.hash h.hash_fits)
      (map-Parses (◌∷◌ c) (read_chunks-Parses cs (i + 1) hs)))

pub read_manifest-Parses :
    (m : ManifestMsg) → IsManifest m → Parses read_manifest (encode_manifest m) m
unfolding read_manifest encode_manifest
read_manifest-Parses m h = bind-Parses _ (read_length-Parses 2 _ (length m.file_name) h.name_fits) (
    bind-Parses _ (read_bytes-Parses _ _ m.file_name refl) (
      bind-Parses _ (read_uint-Parses 8 _ _ (to_u64-lt m.file_size)) (
        bind-Parses _ (read_uint-Parses 8 _ _ (to_u64-lt m.chunk_size)) (
          bind-Parses _ (read_uint-Parses 4 _ m.chunk_count h.count_fits)
            (subst (Parses _ _) same (map-Parses fill chunks))))))
  where
    fill : List ChunkInfo → ManifestMsg
    fill chunks = record m {
      file_size = of_u64 (to_u64 m.file_size);
      chunk_size = of_u64 (to_u64 m.chunk_size);
      chunks = chunks;
    }

    same : fill m.chunks ≡ m
    same =
        ground
          (arith, of_u64-to_u64 m.file_size h.size_fits, of_u64-to_u64 m.chunk_size h.chunk_fits)

    chunks : Parses (read_chunks m.chunk_count 0) (encode_chunks m.chunks) m.chunks
    chunks =
        subst (λ n. Parses (read_chunks n 0) (encode_chunks m.chunks) m.chunks) (sym h.count_agrees)
          (read_chunks-Parses m.chunks 0 h.chunks_fit)

pub read_indices-Parses :
    (indices : List ℕ) (i : ℕ)
    → All (λ idx. idx < 2 ^ 32) indices
    → Parses (read_indices (length indices) i) (encode_indices indices) indices
unfolding read_indices encode_indices encode_uint32_msg
read_indices-Parses [] i h = done-Parses []
read_indices-Parses (idx ∷ indices) i (h, hs) =
    bind-Parses _ (read_uint-Parses 4 _ idx h)
      (map-Parses (◌∷◌ idx) (read_indices-Parses indices (i + 1) hs))

pub read_addrs-Parses :
    (addrs : List Bytes) (i : ℕ)
    → All (λ addr. length addr < 2 ^ 16) addrs
    → Parses (read_addrs (length addrs) i) (encode_addrs addrs) addrs
unfolding read_addrs encode_addrs
read_addrs-Parses [] i h = done-Parses []
read_addrs-Parses (addr ∷ addrs) i (h, hs) =
    bind-Parses _ (read_length-Parses 2 _ (length addr) h) (
      bind-Parses _ (read_bytes-Parses _ _ addr refl)
        (map-Parses (◌∷◌ addr) (read_addrs-Parses addrs (i + 1) hs)))
