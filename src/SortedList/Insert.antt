-- ===== src/SortedList/Insert.antt =====
-- What `add` makes of a sorted list, as a set of strings.
pub mod Stored
pub mod Adds
use gweb_plusplus.Base.{
  ℕ, zero, suc, ◌+◌, ◌≤◌, ◌<◌, Bool, true, false, ◌||◌, List, [], ◌∷◌, ◌++◌, map, Option, none,
  some, some-inj, Bytes, length, take, drop, get_elem?, All, All-append, All-map, inl, inr, arith,
  ◌≡◌, refl, ap, sym, ◌∙◌, subst,
}
use Prim.Native.Nat.{Ordering}
use gweb_plusplus.SortedList.{search, is_found}
use gweb_plusplus.SortedList.Order.{lex, lex_eq, lex_refl, lex_lt}
use gweb_plusplus.SortedList.Place.{Precedes, IsSorted, IsPlace, search-IsPlace, Ordering-cases}

abbrev is_eq : Ordering → Bool
is_eq Ordering.eq = true
is_eq _ = false

module _ {A : Type 0} where
  pub All-take : (P : A → Type 0) (n : ℕ) (xs : List A) → All P xs → All P (take n xs)
  All-take P zero xs h = tt
  All-take P (suc n) [] h = tt
  All-take P (suc n) (x ∷ xs) h = (h.0, All-take P n xs h.1)

  pub All-drop : (P : A → Type 0) (n : ℕ) (xs : List A) → All P xs → All P (drop n xs)
  All-drop P zero xs h = h
  All-drop P (suc n) [] h = tt
  All-drop P (suc n) (x ∷ xs) h = All-drop P n xs h.1

or_assoc : (a b c : Bool) → ((a || b) || c) ≡ (a || (b || c))
or_assoc true b c = refl
or_assoc false b c = refl

or_true : (a : Bool) → (a || true) ≡ true
or_true true = refl
or_true false = refl

or_swap : (a b c : Bool) → (a || (b || c)) ≡ (b || (a || c))
or_swap true true c = refl
or_swap true false c = refl
or_swap false b c = refl

module _ (fold : ℕ → ℕ) where
  abbrev pub is_same : Bytes → Bytes → Bool
  is_same a b = is_eq (lex (map fold a) (map fold b))

  -- Whether one of the strings is the string, up to `fold`: they are looked at one by one.
  abbrev pub holds : List Bytes → Bytes → Bool
  holds [] string = false
  holds (s ∷ strings) string = is_same string s || holds strings string

  pub insert-IsSorted :
      (pos : ℕ) (strings : List Bytes) (string : Bytes)
      → IsSorted fold strings
      → All (λ s. Precedes fold s string) (take pos strings)
      → All (Precedes fold string) (drop pos strings)
      → IsSorted fold (take pos strings ++ (string ∷ drop pos strings))
  insert-IsSorted zero strings string v before after = (after, v)
  insert-IsSorted (suc pos) [] string v before after = (tt, tt)
  insert-IsSorted (suc pos) (s ∷ strings) string v before after = (
    All-append (Precedes fold s) (take pos strings) (string ∷ drop pos strings)
        (All-take (Precedes fold s) pos strings v.0)
        (before.0, All-drop (Precedes fold s) pos strings v.0),
    insert-IsSorted pos strings string v.1 before.1 after,
  )

  pub holds-insert :
      (pos : ℕ) (strings : List Bytes) (string other : Bytes)
      → holds (take pos strings ++ (string ∷ drop pos strings)) other
        ≡ (is_same other string || holds strings other)
  holds-insert zero strings string other = refl
  holds-insert (suc pos) [] string other = refl
  holds-insert (suc pos) (s ∷ strings) string other =
      ap (λ b. is_same other s || b) (holds-insert pos strings string other)
      ∙ or_swap (is_same other s) (is_same other string) (holds strings other)

  holds-before :
      (strings : List Bytes) (string : Bytes)
      → All (λ s. Precedes fold s string) strings
      → holds strings string ≡ false
  holds-before [] string h = refl
  holds-before (s ∷ strings) string h =
      rw (lex_lt (map fold s) (map fold string) h.0) (holds-before strings string h.1)

  holds-after :
      (strings : List Bytes) (string : Bytes)
      → All (Precedes fold string) strings
      → holds strings string ≡ false
  holds-after [] string h = refl
  holds-after (s ∷ strings) string h = rw h.0 (holds-after strings string h.1)

  holds-split :
      (n : ℕ) (strings : List Bytes) (string : Bytes)
      → holds strings string ≡ (holds (take n strings) string || holds (drop n strings) string)
  holds-split zero strings string = refl
  holds-split (suc n) [] string = refl
  holds-split (suc n) (s ∷ strings) string =
      ap (λ b. is_same string s || b) (holds-split n strings string)
      ∙ sym (or_assoc (is_same string s) _ _)

  holds-at :
      (strings : List Bytes) (pos : ℕ) (other string : Bytes)
      → get_elem? strings pos ≡ some other
      → map fold string ≡ map fold other
      → holds strings string ≡ true
  holds-at [] pos other string e d = cc
  holds-at (s ∷ strings) zero other string e d =
      let f : map fold string ≡ map fold s = d ∙ ap (map fold) (sym (some-inj e)) in
      rw f (rw (lex_refl (map fold s)) refl)
  holds-at (s ∷ strings) (suc pos) other string e d =
      rw (holds-at strings pos other string e d) (or_true (is_same string s))

  -- The search in a sorted list finds what is among its strings, and nothing else.
  pub search-holds :
      (strings : List Bytes) (string : Bytes)
      → IsSorted fold strings
      → is_found (search fold strings string) ≡ holds strings string
  search-holds strings string v =
      let ((pos, b), e, at) = search-IsPlace fold strings string v in
      ap is_found e ∙ sym (found b pos at)
    where
      found : (b : Bool) (pos : ℕ) → IsPlace fold strings string (pos, b) → holds strings string ≡ b
      found true pos (other, at, same_as) = holds-at strings pos other string at same_as
      found false pos (le, before, after) =
          holds-split pos strings string
          ∙ rw (holds-before (take pos strings) string before)
              (holds-after (drop pos strings) string after)

  -- Where a string is among them, so is one that is the same up to `fold`.
  pub holds-respects :
      (strings : List Bytes) (string other : Bytes) (pos : ℕ)
      → IsPlace fold strings string (pos, true)
      → holds strings other ≡ (is_same other string || holds strings other)
  holds-respects strings string other pos (found, at, same_as) =
      elim (Ordering-cases (lex (map fold other) (map fold string))) [
        | inl d ↦ rw d refl
        | inr (inr d) ↦ rw d refl
        | inr (inl d) ↦ rw d (holds-at strings pos found other at (lex_eq _ _ d ∙ same_as))
      ]
