-- ===== src/PathList/Below.antt =====
-- util/pathlist.cpp: which paths `exists` finds.
use gweb_plusplus.Base.{
  ℕ, zero, suc, ◌+◌, ◌-◌, ◌≤◌, ◌<◌, Bool, true, false, leb, ltb, [], ◌∷◌, some, ◌==◌, Bytes, length,
  take, drop, length-take, length-drop, get_elem?, more, stop, stop-inj, more-inj, stop-ne-more,
  loop_correct, Bool-cases, ◌⊎◌, inl, inr, arith, ◌≡◌, ◌≢◌, refl, ap, sym, ◌∙◌, subst,
}
use gweb_plusplus.NameSearch.{same}
use gweb_plusplus.SortedList.{SortedList, exists}
use gweb_plusplus.PathList.{ends_in_slash, without_slash, next_slash, path_round, path_exists}

not_slash :
    (l c : ℕ) (bytes : Bytes) (m : ℕ)
    → (c == b'/') ≡ false
    → ((i : ℕ) → suc l + i < m → get_elem? bytes i ≢ some b'/')
    → (i : ℕ) → l + i < m
    → get_elem? (c ∷ bytes) i ≢ some b'/'
not_slash l c bytes m d clear zero lt e = let s : c ≡ b'/' = cc in absurd (ground arith)
not_slash l c bytes m d clear (suc i) lt e = clear i (omega arith) e

-- No slash from `l` on, up to the next, or to the end.
next_slash_lem :
    (l : ℕ) (bytes : Bytes)
    → (l ≤ next_slash l bytes)
      × (next_slash l bytes ≤ l + length bytes)
      × ((next_slash l bytes ≡ l + length bytes)
          ⊎ (get_elem? bytes (next_slash l bytes - l) ≡ some b'/'))
      × ((i : ℕ) → l + i < next_slash l bytes → get_elem? bytes i ≢ some b'/')
next_slash_lem l [] = (omega arith, omega arith, inl (omega arith), λ i lt e. absurd (omega arith))
next_slash_lem l (c ∷ bytes) = elim (Bool-cases (c == b'/')) [
  | inl d ↦
      let slash : c ≡ b'/' = ground arith in
      let e : l - l ≡ 0 = omega arith in
      rw d (
        omega arith,
        omega arith,
        inr (ap (get_elem? (c ∷ bytes)) e ∙ ap some slash),
        λ i lt e. absurd (omega arith),
      )
  | inr d ↦
      let (lo, hi, at, clear) = next_slash_lem (suc l) bytes in
      let m = next_slash (suc l) bytes in
      let e : m - l ≡ suc (m - suc l) = omega arith in
      rw d (
        omega arith,
        omega arith,
        elim at [
          | inl top ↦ inl (omega arith)
          | inr slash ↦ inr (ap (get_elem? (c ∷ bytes)) e ∙ slash)
        ],
        not_slash l c bytes m d clear,
      )
]

get_elem?-drop : (xs : Bytes) (n i : ℕ) → get_elem? (drop n xs) i ≡ get_elem? xs (n + i)
get_elem?-drop xs zero i = ap (get_elem? xs) (let e : i ≡ 0 + i = omega arith in e)
get_elem?-drop [] (suc n) i = refl
get_elem?-drop (x ∷ xs) (suc n) i =
    get_elem?-drop xs n i
    ∙ ap (get_elem? (x ∷ xs)) (let e : suc (n + i) ≡ suc n + i = omega arith in e)

-- Where a directory of the path ends: behind the first slash, before another, and at the end.
abbrev pub IsEnd : Bytes → ℕ → Type 0
IsEnd path n = (n ≡ 1) ⊎ ((n ≡ length path) ⊎ ((2 ≤ n) × (get_elem? path n ≡ some b'/')))

module _ (found : Bytes → Bool) (path : Bytes) where
  -- None of the directories before `l` has been found.
  record IsSought (l : ℕ) : Type 0 where
    low : 1 ≤ l
    high : l ≤ length path
    end : IsEnd path l
    before : (n : ℕ) → 1 ≤ n → n < l → IsEnd path n → found (take n path) ≡ false

  -- Whether one of the directories of the path is found.
  abbrev pub IsBelow : Bool → Type 0
  IsBelow true = (n : ℕ) × (1 ≤ n) × (n ≤ length path) × IsEnd path n × (found (take n path) ≡ true)
  IsBelow false = (n : ℕ) → 1 ≤ n → n ≤ length path → IsEnd path n → found (take n path) ≡ false

  end_between :
      (l n : ℕ)
      → 1 ≤ l
      → l < length path
      → l < n
      → n < next_slash (suc l) (drop (suc l) path)
      → IsEnd path n
      → ⊥
  end_between l n low lt past below e =
      let (lo, hi, at, clear) = next_slash_lem (suc l) (drop (suc l) path) in
      let len = length-drop (suc l) path in
      elim e [
        | inl d ↦ omega arith
        | inr (inl d) ↦ omega arith
        | inr (inr (two, slash)) ↦
            let i : suc l + (n - suc l) ≡ n = omega arith in
            clear (n - suc l) (omega arith)
              (get_elem?-drop path (suc l) (n - suc l) ∙ ap (get_elem? path) i ∙ slash)
      ]

  missed_to :
      (l : ℕ)
      → IsSought l
      → found (take l path) ≡ false
      → (n : ℕ) → 1 ≤ n
      → n ≤ l
      → IsEnd path n
      → found (take n path) ≡ false
  missed_to l v missed n low le e = elim (Bool-cases (n == l)) [
    | inl f ↦ let g : n ≡ l = ground arith in ap (λ k. found (take k path)) g ∙ missed
    | inr f ↦ v.before n low (ground arith) e
  ]

  next-IsSought :
      (l : ℕ)
      → IsSought l
      → found (take l path) ≡ false
      → l < length path
      → IsSought (next_slash (suc l) (drop (suc l) path))
        × (length path - next_slash (suc l) (drop (suc l) path) < length path - l)
  next-IsSought l v missed lt =
      let (lo, hi, at, clear) = next_slash_lem (suc l) (drop (suc l) path) in
      let m = next_slash (suc l) (drop (suc l) path) in
      let len = length-drop (suc l) path in
      (
        record {
          low = omega arith;
          high = omega arith;
          end = elim at [
            | inl top ↦ inr (inl (omega arith))
            | inr slash ↦
                let i : suc l + (m - suc l) ≡ m = omega arith in
                inr (
                  inr (
                    omega (arith, v.low),
                    ap (get_elem? path) (sym i)
                        ∙ sym (get_elem?-drop path (suc l) (m - suc l))
                        ∙ slash,
                  ))
          ];
          before = λ n low below e. before_next n low below e;
        },
        omega arith,
      )
    where
      before_next :
          (n : ℕ)
          → 1 ≤ n
          → n < next_slash (suc l) (drop (suc l) path)
          → IsEnd path n
          → found (take n path) ≡ false
      before_next n low below e = elim (Bool-cases (leb n l)) [
        | inl d ↦ missed_to l v missed n low (ground arith) e
        | inr d ↦ absurd (end_between l n v.low lt (ground arith) below e)
      ]

  round-IsBelow :
      (l : ℕ)
      → IsSought l
      → ((m : ℕ)
          → path_round found path l ≡ more m
          → IsSought m × (length path - m < length path - l))
        × ((b : Bool) → path_round found path l ≡ stop b → IsBelow b)
  unfolding path_round
  round-IsBelow l v = elim (Bool-cases (found (take l path))) [
    | inl d ↦ rw d (
      (λ m e. absurd (stop-ne-more e)),
      (λ b e. subst IsBelow (stop-inj e) (l, v.low, v.high, v.end, d)),
    )
    | inr d ↦ elim (Bool-cases (l == length path)) [
      | inl f ↦
          let g : l ≡ length path = ground arith in
          rw d (
            rw f (
              (λ m e. absurd (stop-ne-more e)),
              (λ b e.
                  subst IsBelow (stop-inj e)
                    (λ n low high end. missed_to l v d n low (omega arith) end)),
            ))
      | inr f ↦ rw d (
          rw f (
            (λ m e.
                subst (λ k. IsSought k × (length path - k < length path - l)) (more-inj e)
                  (next-IsSought l v d (let le = v.high in ground arith))),
            (λ b e. absurd (stop-ne-more (sym e))),
          ))
    ]
  ]

without_slash-length :
    (c : ℕ) (rest : Bytes)
    → (1 ≤ length (without_slash (c ∷ rest)))
      × (length (without_slash (c ∷ rest)) ≤ length (c ∷ rest))
without_slash-length c rest = elim (Bool-cases (ltb 1 (length (c ∷ rest)))) [
  | inl d ↦
      let lt : 1 < length (c ∷ rest) = ground arith in
      let len = length-take (length (c ∷ rest) - 1) (c ∷ rest) (omega arith) in
      elim (Bool-cases (ends_in_slash (c ∷ rest))) [
        | inl f ↦ rw f (omega (arith, lt, len), omega (arith, lt, len))
        | inr f ↦ rw f (omega (arith, lt), omega arith)
      ]
  | inr d ↦ rw d (omega arith, omega arith)
]

-- `exists` of a list of paths, on a path of a byte or more, returns, and with `true` just where one of the
-- directories of the path, a slash at its end aside, is in the list: the path up to its first byte, up to a slash
-- behind the second, or all of it.
pub path_exists-IsBelow :
    (l : SortedList Unit) (c : ℕ) (rest : Bytes)
    → (b : Bool) × (path_exists l (c ∷ rest) ≡ some b)
      × IsBelow (exists same l) (without_slash (c ∷ rest)) b
unfolding path_exists
path_exists-IsBelow l c rest =
    let path = without_slash (c ∷ rest) in
    let (low, high) = without_slash-length c rest in
    loop_correct (path_round (exists same l) path) (IsSought (exists same l) path)
      (IsBelow (exists same l) path) (λ k. length path - k)
      (λ k m v e. (round-IsBelow (exists same l) path k v).0 m e)
      (λ k b v e. (round-IsBelow (exists same l) path k v).1 b e) (length (c ∷ rest)) 1
      (record {
        low = omega arith;
        high = low;
        end = inl refl;
        before = λ n lo hi e. absurd (omega arith);
      })
      (omega arith)
