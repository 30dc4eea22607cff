-- ===== src/Headers/Store/Walk.antt =====
-- http/http_headers.h: where the two functions `search` end.
use gweb_plusplus.Base.{
  ℕ, ◌+◌, ◌≤◌, Bool, true, false, List, [], ◌∷◌, ◌++◌, ◌==◌, if◌then◌else◌, Bytes, length, map, All,
  drop, length-take, length-drop, arith, ◌≡◌, refl, ap, sym, ◌∙◌, Bool-cases, inl, inr,
}
use gweb_plusplus.Headers.Table.{unknown_header}
use gweb_plusplus.Headers.Store.{
  Header, Store, slice, is_found, is_past, is_named, Key, known, other, search_known,
  search_unknown, search_key,
}
use gweb_plusplus.Headers.Store.View.{resolve, is_for, is_after, IsInside}

-- A search over entries by two tests, with the place of the entry where it ends.
module _ {A : Type 0} (found past : A → Bool) where
  pub walk : List A → ℕ → ℕ × Bool
  walk [] n = (n, false)
  walk (e ∷ es) n =
      let rest = walk es (n + 1) in
      if found e then (n, true) else if past e then (n, false) else rest

  -- Neither test holds of an entry that the search passes.
  abbrev pub Passes : A → Type 0
  Passes e = (found e ≡ false) × (past e ≡ false)

  abbrev pub Stops : List A → Type 0
  Stops [] = Unit
  Stops (e ∷ es) = (found e ≡ false) × (past e ≡ true)

  -- The entries that the search passes, and what stands behind them.
  abbrev pub IsWalk : List A → ℕ → ℕ × Bool → Type 0
  IsWalk es n (m, true) =
      (l : List A) × (e : A) × (r : List A) × (es ≡ l ++ (e ∷ r))
      × (m ≡ n + length l)
      × All Passes l
      × (found e ≡ true)
  IsWalk es n (m, false) =
      (l r : List A) × (es ≡ l ++ r) × (m ≡ n + length l) × All Passes l × Stops r

  IsWalk-cons :
      (e : A) (es : List A) (n : ℕ) (w : ℕ × Bool)
      → Passes e
      → IsWalk es (n + 1) w
      → IsWalk (e ∷ es) n w
  IsWalk-cons e es n (m, true) p (l, x, r, d, at, h, f) =
      (e ∷ l, x, r, ap (◌∷◌ e) d, omega arith, (p, h), f)
  IsWalk-cons e es n (m, false) p (l, r, d, at, h, f) =
      (e ∷ l, r, ap (◌∷◌ e) d, omega arith, (p, h), f)

  pub walk-IsWalk : (es : List A) (n : ℕ) → IsWalk es n (walk es n)
  unfolding walk
  walk-IsWalk [] n = ([], [], refl, omega arith, tt, tt)
  walk-IsWalk (e ∷ es) n = elim (Bool-cases (found e)) [
    | inl f ↦ rw f ([], e, es, refl, omega arith, tt, f)
    | inr f ↦ elim (Bool-cases (past e)) [
      | inl p ↦ rw f (rw p ([], e ∷ es, refl, omega arith, tt, (f, p)))
      | inr p ↦ rw f (rw p (IsWalk-cons e es n (walk es (n + 1)) (f, p) (walk-IsWalk es (n + 1))))
    ]
  ]

-- The tests of the searches, on an entry.
abbrev pub found_in : Bytes → Key → Header → Bool
found_in d (known h) e = is_found h e.header
found_in d (other name) e = is_named d name e

abbrev pub past_in : Key → Header → Bool
past_in (known h) e = is_past h e.header
past_in (other name) e = false

search_known-walk :
    (d : Bytes) (h : ℕ) (es : List Header) (n : ℕ)
    → search_known h es n ≡ walk (found_in d (known h)) (past_in (known h)) es n
unfolding search_known walk
search_known-walk d h [] n = refl
search_known-walk d h (e ∷ es) n =
    ap
      (λ r. if is_found h e.header then (n, true) else if is_past h e.header then (n, false) else r)
      (search_known-walk d h es (n + 1))

search_unknown-walk :
    (d name : Bytes) (es : List Header) (n : ℕ)
    → search_unknown d name es n ≡ walk (found_in d (other name)) (past_in (other name)) es n
unfolding search_unknown walk
search_unknown-walk d name [] n = refl
search_unknown-walk d name (e ∷ es) n =
    ap (λ r. if is_named d name e then (n, true) else r) (search_unknown-walk d name es (n + 1))

pub search_key-IsWalk :
    (s : Store) (k : Key) → IsWalk (found_in s.data' k) (past_in k) s.headers 0 (search_key s k)
unfolding search_key
search_key-IsWalk s (known h) =
    rw (search_known-walk s.data' h s.headers 0) (walk-IsWalk _ _ s.headers 0)
search_key-IsWalk s (other name) =
    rw (search_unknown-walk s.data' name s.headers 0) (walk-IsWalk _ _ s.headers 0)

-- The tests on an entry are those on its field.
pub length-slice : (d : Bytes) (at len : ℕ) → at + len ≤ length d → length (slice d at len) ≡ len
unfolding slice
length-slice d at len le = length-take len (drop at d) (omega (arith, length-drop at d))

pub found_in-is_for :
    (k : Key) (d : Bytes) (e : Header) → IsInside d e → found_in d k e ≡ is_for k (resolve d e)
unfolding is_named
found_in-is_for (known h) d e v = refl
found_in-is_for (other name) d e v = elim (Bool-cases (e.header == unknown_header)) [
  | inl u ↦ rw u (rw (length-slice d e.name e.namelen (v.name_le (ground arith))) refl)
  | inr u ↦ rw u refl
]

pub past_in-is_after : (k : Key) (d : Bytes) (e : Header) → past_in k e ≡ is_after k (resolve d e)
past_in-is_after (known h) d e = refl
past_in-is_after (other name) d e = refl

pub Passes-resolve :
    (k : Key) (d : Bytes) (es : List Header)
    → All (IsInside d) es
    → All (Passes (found_in d k) (past_in k)) es
    → All (Passes (is_for k) (is_after k)) (map (resolve d) es)
Passes-resolve k d [] v p = tt
Passes-resolve k d (e ∷ es) v p = (
  (sym (found_in-is_for k d e v.0) ∙ p.0.0, sym (past_in-is_after k d e) ∙ p.0.1),
  Passes-resolve k d es v.1 p.1,
)

pub Stops-resolve :
    (k : Key) (d : Bytes) (es : List Header)
    → All (IsInside d) es
    → Stops (found_in d k) (past_in k) es
    → Stops (is_for k) (is_after k) (map (resolve d) es)
Stops-resolve k d [] v p = tt
Stops-resolve k d (e ∷ es) v p =
    (sym (found_in-is_for k d e v.0) ∙ p.0, sym (past_in-is_after k d e) ∙ p.1)
