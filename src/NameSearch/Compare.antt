-- ===== src/NameSearch/Compare.antt =====
-- The comparison of names, up to `fold`.
use gweb_plusplus.Base.{ℕ, zero, suc, [], ◌∷◌, Bytes, length, arith, ◌≡◌, refl, ap, map}
use Prim.Native.Nat.{compare, Ordering}
use gweb_plusplus.NameSearch.{unless_eq, compare_names}

pub unless_eq-eq :
    (p q : Ordering) → unless_eq p q ≡ Ordering.eq → (p ≡ Ordering.eq) × (q ≡ Ordering.eq)
unless_eq-eq Ordering.lt q e = cc
unless_eq-eq Ordering.gt q e = cc
unless_eq-eq Ordering.eq q e = (refl, e)

pub compare_eq : (a b : ℕ) → compare a b ≡ Ordering.eq → a ≡ b
compare_eq a b e = ground arith

module _ (fold : ℕ → ℕ) where
  abbrev pub fold_all : Bytes → Bytes
  fold_all s = map fold s

  -- A comparison to the length of both strings finds them equal only where they are the same but for `fold`.
  pub compare_names-fold :
      (a b : Bytes)
      → compare_names fold a b (length a) ≡ Ordering.eq
      → length a ≡ length b
      → fold_all a ≡ fold_all b
  unfolding compare_names
  compare_names-fold [] [] e d = refl
  compare_names-fold [] (y ∷ b) e d = absurd (omega arith)
  compare_names-fold (x ∷ a) [] e d = absurd (omega arith)
  compare_names-fold (x ∷ a) (y ∷ b) e d =
      let (p, q) = unless_eq-eq _ _ e in
      let c = compare_eq (fold x) (fold y) p in let r = compare_names-fold a b q (omega arith) in cc

  -- Where two strings are the same but for `fold`, so do their comparisons.
  pub compare_names-respects :
      (s t b : Bytes) (n : ℕ)
      → fold_all s ≡ fold_all t
      → compare_names fold s b n ≡ compare_names fold t b n
  unfolding compare_names
  compare_names-respects s t b zero e = refl
  compare_names-respects [] [] b (suc n) e = refl
  compare_names-respects [] (y ∷ t) b (suc n) e = cc
  compare_names-respects (x ∷ s) [] b (suc n) e = cc
  compare_names-respects (x ∷ s) (y ∷ t) [] (suc n) e = refl
  compare_names-respects (x ∷ s) (y ∷ t) (z ∷ b) (suc n) e =
      let c : fold x ≡ fold y = cc in
      let d : fold_all s ≡ fold_all t = cc in
      rw c (ap (unless_eq (compare (fold y) (fold z))) (compare_names-respects s t b n d))

  pub length-fold_all : (s t : Bytes) → fold_all s ≡ fold_all t → length s ≡ length t
  length-fold_all [] [] e = refl
  length-fold_all [] (y ∷ t) e = cc
  length-fold_all (x ∷ s) [] e = cc
  length-fold_all (x ∷ s) (y ∷ t) e =
      ap suc (length-fold_all s t (let d : fold_all s ≡ fold_all t = cc in d))
