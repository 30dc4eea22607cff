-- ===== src/SortedList/Order.antt =====
-- The order in which the lists keep their strings: that of the bytes, a string before those it is the start of.
use gweb_plusplus.Base.{ℕ, suc, [], ◌∷◌, Bytes, length, map, min, arith, ◌≡◌, refl, ap, ◌∙◌}
use Prim.Native.Nat.{compare, Ordering}
use gweb_plusplus.NameSearch.Compare.{unless_eq-eq, compare_eq}
use gweb_plusplus.NameSearch.{unless_eq, compare_names}

abbrev pub lex : Bytes → Bytes → Ordering
lex [] [] = Ordering.eq
lex [] (y ∷ b) = Ordering.lt
lex (x ∷ a) [] = Ordering.gt
lex (x ∷ a) (y ∷ b) = unless_eq (compare x y) (lex a b)

unless_eq_assoc : (p q r : Ordering) → unless_eq (unless_eq p q) r ≡ unless_eq p (unless_eq q r)
unless_eq_assoc Ordering.lt q r = refl
unless_eq_assoc Ordering.eq q r = refl
unless_eq_assoc Ordering.gt q r = refl

pub compare_names-lex :
    (fold : ℕ → ℕ) (a b : Bytes)
    → unless_eq (compare_names fold a b (min (length a) (length b))) (compare (length a) (length b))
      ≡ lex (map fold a) (map fold b)
unfolding compare_names
compare_names-lex fold [] [] = refl
compare_names-lex fold [] (y ∷ b) =
    let e : min 0 (suc (length b)) ≡ 0 = omega arith in
    let d : compare 0 (suc (length b)) ≡ Ordering.lt = ground arith in rw e d
compare_names-lex fold (x ∷ a) [] =
    let e : min (suc (length a)) 0 ≡ 0 = omega arith in
    let d : compare (suc (length a)) 0 ≡ Ordering.gt = ground arith in rw e d
compare_names-lex fold (x ∷ a) (y ∷ b) =
    let e : min (suc (length a)) (suc (length b)) ≡ suc (min (length a) (length b)) = omega arith in
    let d : compare (suc (length a)) (suc (length b)) ≡ compare (length a) (length b) =
      ground arith in
    rw e (
      rw d (
        unless_eq_assoc (compare (fold x) (fold y)) _ _
        ∙ ap (unless_eq (compare (fold x) (fold y))) (compare_names-lex fold a b)))

pub lex_eq : (a b : Bytes) → lex a b ≡ Ordering.eq → a ≡ b
lex_eq [] [] e = refl
lex_eq [] (y ∷ b) e = cc
lex_eq (x ∷ a) [] e = cc
lex_eq (x ∷ a) (y ∷ b) e =
    let (p, q) = unless_eq-eq (compare x y) (lex a b) e in
    let c = compare_eq x y p in let r = lex_eq a b q in cc

pub lex_refl : (a : Bytes) → lex a a ≡ Ordering.eq
lex_refl [] = refl
lex_refl (x ∷ a) = let e : compare x x ≡ Ordering.eq = ground arith in rw e (lex_refl a)

pub lex_gt : (a b : Bytes) → lex a b ≡ Ordering.gt → lex b a ≡ Ordering.lt
lex_gt [] [] e = cc
lex_gt [] (y ∷ b) e = cc
lex_gt (x ∷ a) [] e = refl
lex_gt (x ∷ a) (y ∷ b) e = ground (arith, lex_gt a b)

pub lex_trans :
    (a b c : Bytes) → lex a b ≡ Ordering.lt → lex b c ≡ Ordering.lt → lex a c ≡ Ordering.lt
lex_trans [] [] c d e = cc
lex_trans [] (y ∷ b) [] d e = cc
lex_trans [] (y ∷ b) (z ∷ c) d e = refl
lex_trans (x ∷ a) [] c d e = cc
lex_trans (x ∷ a) (y ∷ b) [] d e = cc
lex_trans (x ∷ a) (y ∷ b) (z ∷ c) d e = ground (arith, lex_trans a b c)

pub lex_lt : (a b : Bytes) → lex a b ≡ Ordering.lt → lex b a ≡ Ordering.gt
lex_lt [] [] e = cc
lex_lt [] (y ∷ b) e = refl
lex_lt (x ∷ a) [] e = cc
lex_lt (x ∷ a) (y ∷ b) e = ground (arith, lex_lt a b)
