-- ===== src/Chunk/Regions.antt =====
-- The regions of a file that its chunks cover, and what a write to one region does to the others.
use peerwatch.Base.{
  ℕ, zero, suc, ◌+◌, ◌-◌, ◌*◌, ◌≤◌, ◌≡◌, refl, sym, ap, ◌∙◌, ◌≢◌, [], ◌∷◌, ◌++◌, append-nil, arith,
}
use peerwatch.Base.Lists.{
  length, take, drop, length-append, length-take, length-drop, take-append_self, drop-append_self,
  take_past, take_all, drop-drop,
}
use Prim.Native.Nat.{min}
use peerwatch.Protocol.Message.{Bytes}
use peerwatch.Chunk.File.{splice}
use peerwatch.Chunk.Chunker.Contents.{region}
use native.Mathlib.Nat.{mul-le-mul_right}
use native.Mathlib.Decide.{dec_lt, dec_le}

drop_behind : (xs ys : Bytes) (n : ℕ) → length xs ≤ n → drop n (xs ++ ys) ≡ drop (n - length xs) ys
drop_behind [] ys n h = let e : n - 0 ≡ n = omega arith in rw e
drop_behind (x ∷ xs) ys zero h = absurd (omega arith)
drop_behind (x ∷ xs) ys (suc n) h =
    let e : suc n - suc (length xs) ≡ n - length xs = omega arith in
    rw e (drop_behind xs ys n (omega arith))

-- A write inside the file keeps what stands before it.
take_before :
    (xs ys : Bytes) (n o : ℕ) → o + n ≤ length xs → take n (drop o (xs ++ ys)) ≡ take n (drop o xs)
take_before xs ys zero o h = refl
take_before [] ys (suc n) o h = absurd (omega arith)
take_before (x ∷ xs) ys (suc n) zero h = ap (◌∷◌ x) (take_before xs ys n zero (omega arith))
take_before (x ∷ xs) ys (suc n) (suc o) h = take_before xs ys (suc n) o (omega arith)

take-drop-take :
    (xs : Bytes) (n o m : ℕ) → o + n ≤ m → take n (drop o (take m xs)) ≡ take n (drop o xs)
take-drop-take xs zero o m h = refl
take-drop-take [] (suc n) zero (suc m) h = refl
take-drop-take [] (suc n) (suc o) (suc m) h = refl
take-drop-take xs (suc n) o zero h = absurd (omega arith)
take-drop-take (x ∷ xs) (suc n) zero (suc m) h =
    ap (◌∷◌ x) (take-drop-take xs n zero m (omega arith))
take-drop-take (x ∷ xs) (suc n) (suc o) (suc m) h = take-drop-take xs (suc n) o m (omega arith)

-- Inside the file there is no gap to fill.
splice_inside :
    (bs : Bytes) (o : ℕ) (ds : Bytes)
    → o ≤ length bs
    → splice bs o ds ≡ take o bs ++ (ds ++ drop (o + length ds) bs)
unfolding splice
splice_inside bs o ds h = let e : o - length bs ≡ 0 = omega arith in rw (e, append-nil)

pub length-splice :
    (bs : Bytes) (o : ℕ) (ds : Bytes)
    → o + length ds ≤ length bs
    → length (splice bs o ds) ≡ length bs
length-splice bs o ds h = rw (splice_inside bs o ds (omega arith)) (
    omega (
      arith,
      length-append (take o bs) (ds ++ drop (o + length ds) bs),
      length-append ds (drop (o + length ds) bs),
      length-take o bs,
      length-drop (o + length ds) bs,
    ))

splice_before :
    (bs : Bytes) (o : ℕ) (ds : Bytes) (n p : ℕ)
    → o ≤ length bs
    → p + n ≤ o
    → take n (drop p (splice bs o ds)) ≡ take n (drop p bs)
splice_before bs o ds n p h k =
    rw (splice_inside bs o ds h)
      (take_before (take o bs) _ n p (omega (arith, length-take o bs)) ∙ take-drop-take bs n p o k)

splice_behind :
    (bs : Bytes) (o : ℕ) (ds : Bytes) (p : ℕ)
    → o + length ds ≤ p
    → o ≤ length bs
    → drop p (splice bs o ds) ≡ drop p bs
splice_behind bs o ds p h k = rw (splice_inside bs o ds k) (
    drop_behind (take o bs) _ p (omega (arith, length-take o bs))
    ∙ drop_behind ds _ _ (omega (arith, length-take o bs))
    ∙ drop-drop (o + length ds) _ bs
    ∙ ap (λ q. drop q bs) (omega (arith, length-take o bs)))

drop_all : (xs : Bytes) (n : ℕ) → length xs ≤ n → drop n xs ≡ []
drop_all [] zero h = refl
drop_all [] (suc n) h = refl
drop_all (x ∷ xs) zero h = absurd (omega arith)
drop_all (x ∷ xs) (suc n) h = drop_all xs n (omega arith)

splice_within :
    (bs : Bytes) (o : ℕ) (ds : Bytes) (n : ℕ)
    → o ≤ length bs
    → length (take n (drop o bs)) ≡ length ds
    → take n (drop o (splice bs o ds)) ≡ ds
splice_within bs o ds n h k =
    rw
      (
        splice_inside bs o ds h,
        drop-append_self (take o bs) (ds ++ drop (o + length ds) bs) o
            (omega (arith, length-take o bs)),
      )
      (elim (dec_le n (length bs - o)) [
        | yes whole ↦
            take-append_self ds _ n (omega (arith, length-take n (drop o bs), length-drop o bs))
        | no last ↦
            rw
              (
                drop_all bs (o + length ds)
                    (omega (arith, length-take n (drop o bs), length-drop o bs)),
                append-nil,
              )
              (take_past ds n (length ds)
                  (omega (arith, length-take n (drop o bs), length-drop o bs)) (omega arith)
                ∙ take_all ds (length ds) refl)
      ])

pub length-region : (bs : Bytes) (cs i : ℕ) → length (region bs cs i) ≡ min cs (length bs - i * cs)
length-region bs cs i = omega (arith, length-take cs (drop (i * cs) bs), length-drop (i * cs) bs)

-- A write of at most one chunk at the chunk's offset leaves the other chunks alone.
pub region-splice_ne :
    (bs : Bytes) (cs i j : ℕ) (ds : Bytes)
    → i * cs ≤ length bs
    → length ds ≤ cs
    → i ≢ j
    → region (splice bs (i * cs) ds) cs j ≡ region bs cs j
region-splice_ne bs cs i j ds h k ne = elim (dec_lt j i) [
  | yes below ↦
      let m : suc j * cs ≤ i * cs = mul-le-mul_right cs below in
      splice_before bs (i * cs) ds cs (j * cs) h (omega arith)
  | no above ↦
      let m : suc i * cs ≤ j * cs = mul-le-mul_right cs (omega arith) in
      ap (take cs) (splice_behind bs (i * cs) ds (j * cs) (omega arith) h)
]

-- A write of the chunk's own length replaces it.
pub region-splice_self :
    (bs : Bytes) (cs i : ℕ) (ds : Bytes)
    → i * cs ≤ length bs
    → length ds ≡ length (region bs cs i)
    → region (splice bs (i * cs) ds) cs i ≡ ds
region-splice_self bs cs i ds h k = splice_within bs (i * cs) ds cs h (sym k)
