-- ===== src/Utf8/Characters.antt =====
-- string/utf8.cpp: which texts have a length, and which.
use gweb_plusplus.Base.{
  ℕ, zero, suc, ◌+◌, ◌≤◌, ◌<◌, true, List, [], ◌∷◌, ◌++◌, Option, none, some, some-inj, Bytes,
  length, All, flatten, Bool-cases, Option-cases, inl, inr, arith, ◌≡◌, ◌↔◌, refl, ap, sym, ◌∙◌,
}
use gweb_plusplus.Utf8.{following, is_following, count_from, utf8_length}

-- A byte that does not begin a character, 0x80 to 0xBF.
abbrev pub IsContinuation : ℕ → Type 0
IsContinuation c = (128 ≤ c) × (c ≤ 191)

abbrev pub IsTail : Bytes → Type 0
IsTail t = All IsContinuation t

-- The first bytes of the characters of one byte to four: ASCII, 0xC0 to 0xDF, 0xE0 to 0xEF, 0xF0 to 0xF7.
abbrev pub IsCharacter : Bytes → Type 0
IsCharacter [] = ⊥
IsCharacter (c ∷ []) = c < 128
IsCharacter (c ∷ d ∷ []) = (192 ≤ c) × (c ≤ 223) × IsTail (d ∷ [])
IsCharacter (c ∷ d ∷ e ∷ []) = (224 ≤ c) × (c ≤ 239) × IsTail (d ∷ e ∷ [])
IsCharacter (c ∷ d ∷ e ∷ f ∷ []) = (240 ≤ c) × (c ≤ 247) × IsTail (d ∷ e ∷ f ∷ [])
IsCharacter (c ∷ d ∷ e ∷ f ∷ g ∷ t) = ⊥

is_following_iff : (c : ℕ) → (is_following c ≡ true) ↔ IsContinuation c
unfolding is_following
is_following_iff c = ground arith

-- A first byte, and as many bytes behind it as `following` says.
following-IsCharacter :
    (c : ℕ) (t : Bytes) → following c ≡ some (length t) → IsTail t → IsCharacter (c ∷ t)
unfolding following
following-IsCharacter c [] e v = ground arith
following-IsCharacter c (d ∷ []) e v = ground arith
following-IsCharacter c (d ∷ x ∷ []) e v = ground arith
following-IsCharacter c (d ∷ x ∷ y ∷ []) e v = ground arith
following-IsCharacter c (d ∷ x ∷ y ∷ z ∷ t) e v = ground arith

IsCharacter-following :
    (c : ℕ) (t : Bytes) → IsCharacter (c ∷ t) → (following c ≡ some (length t)) × IsTail t
unfolding following
IsCharacter-following c [] v = (ground arith, tt)
IsCharacter-following c (d ∷ []) v = (ground arith, v.2)
IsCharacter-following c (d ∷ x ∷ []) v = (ground arith, v.2)
IsCharacter-following c (d ∷ x ∷ y ∷ []) v = (ground arith, v.2)
IsCharacter-following c (d ∷ x ∷ y ∷ z ∷ t) v = absurd v

-- A text that ends the character it starts in, which has `left` bytes to come, and has `n` more.
abbrev Splits : ℕ → ℕ → Bytes → Type 0
Splits left n bs =
    (t : Bytes) × (cs : List Bytes) × IsTail t
    × (length t ≡ left)
    × All IsCharacter cs
    × (t ++ flatten cs ≡ bs)
    × (length cs ≡ n)

Splits-first :
    (c left n : ℕ) (bs : Bytes)
    → following c ≡ some left
    → Splits left n bs
    → Splits 0 (suc n) (c ∷ bs)
unfolding flatten
Splits-first c left n bs e (t, cs, tail, len, all, eq, num) = (
  [],
  (c ∷ t) ∷ cs,
  tt,
  refl,
  (following-IsCharacter c t (e ∙ ap some (sym len)) tail, all),
  ap (◌∷◌ c) eq,
  omega (arith, num),
)

Splits-next :
    (c left n : ℕ) (bs : Bytes)
    → is_following c ≡ true
    → Splits left n bs
    → Splits (suc left) n (c ∷ bs)
Splits-next c left n bs e (t, cs, tail, len, all, eq, num) =
    (c ∷ t, cs, ((is_following_iff c).0 e, tail), omega (arith, len), all, ap (◌∷◌ c) eq, num)

-- What the first byte of a character leads to.
abbrev onwards : ℕ → Bytes → Option ℕ → Option ℕ
onwards n cs none = none
onwards n cs (some left) = count_from left (n + 1) cs

count_from-onwards :
    (c n : ℕ) (cs : Bytes) (o : Option ℕ)
    → following c ≡ o
    → count_from 0 n (c ∷ cs) ≡ onwards n cs o
unfolding count_from
count_from-onwards c n cs o e = same (following c) ∙ ap (onwards n cs) e
  where
    same :
        (o : Option ℕ)
        → elim o as (λ _. Option ℕ) [ none ↦ none | some left ↦ count_from left (n + 1) cs ]
          ≡ onwards n cs o
    same none = refl
    same (some left) = refl

count_from-Splits :
    (left n m : ℕ) (bs : Bytes)
    → count_from left n bs ≡ some m
    → (k : ℕ) × (m ≡ n + k) × Splits left k bs
unfolding count_from flatten
count_from-Splits zero n m [] e = (0, omega (arith, some-inj e), ([], [], tt, refl, tt, refl, refl))
count_from-Splits (suc left) n m [] e = cc
count_from-Splits zero n m (c ∷ cs) e = elim (Option-cases (following c)) [
  | inl d ↦ let f : none ≡ some m = sym (count_from-onwards c n cs none d) ∙ e in cc
  | inr (left, d) ↦
      let f : count_from left (n + 1) cs ≡ some m =
        sym (count_from-onwards c n cs (some left) d) ∙ e in
      let (k, eq, s) = count_from-Splits left (n + 1) m cs f in
      (suc k, omega (arith, eq), Splits-first c left k cs d s)
]
count_from-Splits (suc left) n m (c ∷ cs) e = elim (Bool-cases (is_following c)) [
  | inl d ↦
      let f : count_from left n cs ≡ some m = rw d at e in
      let (k, eq, s) = count_from-Splits left n m cs f in (k, eq, Splits-next c left k cs d s)
  | inr d ↦ let f : none ≡ some m = rw d at e in cc
]

count_from-tail :
    (t rest : Bytes) (n : ℕ) → IsTail t → count_from (length t) n (t ++ rest) ≡ count_from 0 n rest
unfolding count_from
count_from-tail [] rest n h = refl
count_from-tail (c ∷ t) rest n h = rw ((is_following_iff c).1 h.0) (count_from-tail t rest n h.1)

count_from-flatten :
    (cs : List Bytes) (n : ℕ)
    → All IsCharacter cs
    → count_from 0 n (flatten cs) ≡ some (n + length cs)
unfolding count_from flatten
count_from-flatten [] n all = ap some (omega arith)
count_from-flatten ([] ∷ cs) n all = absurd all.0
count_from-flatten ((c ∷ t) ∷ cs) n all =
    let (first, tail) = IsCharacter-following c t all.0 in
    count_from-onwards c n (t ++ flatten cs) (some (length t)) first
    ∙ (count_from-tail t (flatten cs) (n + 1) tail
        ∙ count_from-flatten cs (n + 1) all.1
        ∙ ap some (omega arith))

-- `utf8::length` gives a text the length `n` just where the text is that many characters, one after the
-- other: a byte below 0x80; or a byte 0xC0 to 0xDF, 0xE0 to 0xEF or 0xF0 to 0xF7, and one, two or three bytes 0x80 to 0xBF
-- behind it.
pub utf8_length-characters :
    (bs : Bytes) (n : ℕ)
    → (utf8_length bs ≡ some n)
      ↔ ((cs : List Bytes) × All IsCharacter cs × (flatten cs ≡ bs) × (length cs ≡ n))
unfolding utf8_length
utf8_length-characters bs n = (
  λ e. let (k, eq, s) = count_from-Splits 0 0 n bs e in whole k eq s,
  λ (cs, all, eq, num).
      ap (count_from 0 0) (sym eq) ∙ count_from-flatten cs 0 all ∙ ap some (omega (arith, num)),
)
  where
    whole :
        (k : ℕ)
        → n ≡ 0 + k
        → Splits 0 k bs
        → (cs : List Bytes) × All IsCharacter cs × (flatten cs ≡ bs) × (length cs ≡ n)
    whole k eq ([], cs, tail, len, all, e, num) = (cs, all, e, omega (arith, num, eq))
    whole k eq (c ∷ t, cs, tail, len, all, e, num) = absurd (omega (arith, len))
