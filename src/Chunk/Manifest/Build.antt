-- ===== src/Chunk/Manifest/Build.antt =====
-- internal/chunk/manifest.go: BuildManifest gives the manifest of the file, in whatever order its
-- workers finish.
use peerwatch.Base.{
  ℕ, zero, suc, ◌+◌, ◌<◌, ◌≡◌, refl, sym, ap, ◌∙◌, ◌⊎◌, inl, inr, List, [], ◌∷◌, none, arith,
}
use peerwatch.Base.Lists.{
  length, set, get_or, replicate, All, length-set, length-replicate, get_or-set_self, get_or-set_ne,
}
use peerwatch.Base.Int.{pos}
use peerwatch.Base.Results.{ok}
use peerwatch.Protocol.Message.{Bytes, Digest}
use peerwatch.Chunk.Manifest.{ChunkMeta, empty_meta, collect, hash_job, hash_jobs, build_manifest}
use peerwatch.Chunk.Counts.{meta_of, metas_from, manifest_of}
use peerwatch.Chunk.Chunker.Counting.{ceil_div, Fits, chunker_of, new_chunker_lem, chunk_count_lem}
use peerwatch.Chunk.Chunker.Contents.{read_chunk-region}
use native.Mathlib.Decide.{ℕ_discrete}

-- The index is delivered.
abbrev pub Delivers : ℕ → List ℕ → Type 0
Delivers i [] = ⊥
Delivers i (x ∷ xs) = (i ≡ x) ⊎ Delivers i xs

module _ (sha256 : Bytes → Digest) (bs : Bytes) (cs : ℕ) (fits : Fits (length bs) cs) where
  abbrev count : ℕ
  count = ceil_div (length bs) cs

  hash_job_lem :
      (i : ℕ)
      → i < count
      → hash_job sha256 (chunker_of bs cs) cs i
        ≡ record { index = i; outcome = ok (meta_of sha256 bs cs i) }
  unfolding hash_job
  hash_job_lem i h = rw (read_chunk-region bs cs i cs fits h (omega arith))

  -- The metas with the results that have come in.
  collected : List ChunkMeta → List ℕ → List ChunkMeta
  collected chunks [] = chunks
  collected chunks (i ∷ order) = collected (set chunks i (meta_of sha256 bs cs i)) order

  collect-hash_jobs :
      (chunks : List ChunkMeta) (order : List ℕ)
      → All (λ i. i < count) order
      → collect chunks none (hash_jobs sha256 (chunker_of bs cs) cs order)
        ≡ ok (collected chunks order)
  unfolding collect hash_jobs collected
  collect-hash_jobs chunks [] h = refl
  collect-hash_jobs chunks (i ∷ order) (h, hs) =
      rw (hash_job_lem i h) (collect-hash_jobs (set chunks i (meta_of sha256 bs cs i)) order hs)

  length-collected :
      (chunks : List ChunkMeta) (order : List ℕ) → length (collected chunks order) ≡ length chunks
  unfolding collected
  length-collected chunks [] = refl
  length-collected chunks (i ∷ order) =
      length-collected (set chunks i (meta_of sha256 bs cs i)) order ∙ length-set chunks i _

  -- A slot that is right stays right, and a delivered one becomes so.
  collected_keeps :
      (chunks : List ChunkMeta) (order : List ℕ) (j : ℕ)
      → j < length chunks
      → get_or chunks j empty_meta ≡ meta_of sha256 bs cs j
      → get_or (collected chunks order) j empty_meta ≡ meta_of sha256 bs cs j
  unfolding collected
  collected_keeps chunks [] j h e = e
  collected_keeps chunks (i ∷ order) j h e =
      let m = meta_of sha256 bs cs i in
      collected_keeps (set chunks i m) order j (rw (length-set chunks i m) h)
        (elim (ℕ_discrete i j) [
          | yes same ↦ rw (← same) (get_or-set_self chunks i m empty_meta (rw same h))
          | no other ↦ get_or-set_ne chunks i j m empty_meta other ∙ e
        ])

  collected-Delivers :
      (chunks : List ChunkMeta) (order : List ℕ) (j : ℕ)
      → j < length chunks
      → Delivers j order
      → get_or (collected chunks order) j empty_meta ≡ meta_of sha256 bs cs j
  unfolding collected
  collected-Delivers chunks [] j h d = absurd d
  collected-Delivers chunks (i ∷ order) j h (inl e) =
      let m = meta_of sha256 bs cs i in
      collected_keeps (set chunks i m) order j (rw (length-set chunks i m) h)
        (rw e (get_or-set_self chunks i m empty_meta (rw e at h)))
  collected-Delivers chunks (i ∷ order) j h (inr d) =
      let m = meta_of sha256 bs cs i in
      collected-Delivers (set chunks i m) order j (rw (length-set chunks i m) h) d

  -- A list is determined by its entries.
  metas_ext :
      (chunks : List ChunkMeta) (n i : ℕ)
      → length chunks ≡ n
      → ((j : ℕ) → j < n → get_or chunks j empty_meta ≡ meta_of sha256 bs cs (i + j))
      → chunks ≡ metas_from sha256 bs cs n i
  metas_ext [] zero i e h = refl
  metas_ext [] (suc n) i e h = absurd (omega arith)
  metas_ext (c ∷ chunks) zero i e h = absurd (omega arith)
  metas_ext (c ∷ chunks) (suc n) i e h =
      let z : i + 0 ≡ i = omega arith in
      let first : c ≡ meta_of sha256 bs cs i = h 0 (omega arith) ∙ ap (meta_of sha256 bs cs) z in
      let rest = metas_ext chunks n (i + 1) (omega arith) (λ j l.
        let s : i + suc j ≡ i + 1 + j = omega arith in
        h (suc j) (omega arith) ∙ ap (meta_of sha256 bs cs) s) in
      cc

  collected_all :
      (order : List ℕ)
      → ((i : ℕ) → i < count → Delivers i order)
      → collected (replicate count empty_meta) order ≡ metas_from sha256 bs cs count 0
  collected_all order all =
      let blank = replicate count empty_meta in
      let room = length-replicate count empty_meta in
      metas_ext (collected blank order) count 0 (length-collected blank order ∙ room) (λ j h.
        let z : 0 + j ≡ j = omega arith in
        collected-Delivers blank order j (rw room h) (all j h) ∙ ap (meta_of sha256 bs cs) (sym z))

  -- Whatever the order in which the results of the workers arrive:
  -- BuildManifest gives the manifest that lists the size and digest of each region of the file.
  pub build_manifest_lem :
      (name : Bytes) (order : List ℕ)
      → All (λ i. i < count) order
      → ((i : ℕ) → i < count → Delivers i order)
      → build_manifest sha256 (ok (record { contents = bs; fault = none })) name (pos cs) order
        ≡ ok (manifest_of sha256 bs cs name)
  unfolding build_manifest
  build_manifest_lem name order inside all = rw (
    new_chunker_lem bs cs fits,
    chunk_count_lem bs cs fits,
    collect-hash_jobs (replicate count empty_meta) order inside,
    collected_all order all,
  )
