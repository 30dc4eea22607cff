-- ===== src/Backends/Turns.antt =====
-- http/backend_list.cpp: which backend `connect` reaches.
use gweb_plusplus.Base.{
  ℕ, zero, suc, ◌+◌, ◌-◌, ◌%◌, ◌≤◌, ◌<◌, true, false, List, [], ◌∷◌, Option, none, some, some-inj,
  leb, ltb, ◌==◌, if◌then◌else◌, length, get_elem?, Round, more, stop, stop-inj, more-inj,
  stop-ne-more, loop_correct, Bool-cases, ◌⊎◌, ◌≢◌, inl, inr, arith, ◌≡◌, refl, ap, sym, ◌∙◌, subst,
}
use gweb_plusplus.Backends.{
  Backend, BackendList, set_at, down, is_due, next_turn, try_backend, turn_at, turn, connect,
}
use native.Mathlib.Nat.{mod-lt, mod_self, mod-eq_of_lt}

length-set_at : {A : Type 0} (i : ℕ) (y : A) (xs : List A) → length (set_at i y xs) ≡ length xs
length-set_at i y [] = refl
length-set_at zero y (x ∷ xs) = refl
length-set_at (suc i) y (x ∷ xs) = ap suc (length-set_at i y xs)

get_elem?-set_at :
    {A : Type 0} (i j : ℕ) (y : A) (xs : List A)
    → i ≢ j
    → get_elem? (set_at i y xs) j ≡ get_elem? xs j
get_elem?-set_at i j y [] n = refl
get_elem?-set_at zero zero y (x ∷ xs) n = absurd (n refl)
get_elem?-set_at zero (suc j) y (x ∷ xs) n = refl
get_elem?-set_at (suc i) zero y (x ∷ xs) n = refl
get_elem?-set_at (suc i) (suc j) y (x ∷ xs) n = get_elem?-set_at i j y xs (λ e. n (ap suc e))

get_elem?-some :
    {A : Type 0} (xs : List A) (i : ℕ) → i < length xs → (x : A) × (get_elem? xs i ≡ some x)
get_elem?-some [] i lt = absurd (omega arith)
get_elem?-some (x ∷ xs) zero lt = (x, refl)
get_elem?-some (x ∷ xs) (suc i) lt = get_elem?-some xs i (omega arith)

-- The next index goes back to 0 behind the last.
next_index :
    (i count : ℕ)
    → i < count
    → ((i + 1 < count) × ((i + 1) % count ≡ i + 1)) ⊎ ((i + 1 ≡ count) × ((i + 1) % count ≡ 0))
next_index i count lt = elim (Bool-cases (ltb (i + 1) count)) [
  | inl d ↦ inl (ground arith, mod-eq_of_lt (let e : i + 1 < count = ground arith in e))
  | inr d ↦ let e : i + 1 ≡ count = ground arith in inr (e, ap (λ n. n % count) e ∙ mod_self count)
]

-- The indices from `first` on that come before `current`, in turn.
abbrev Seen : ℕ → ℕ → ℕ → Type 0
Seen first current i =
    ((first ≤ current) × (first ≤ i) × (i < current))
    ⊎ ((current < first) × ((first ≤ i) ⊎ (i < current)))

abbrev turns_left : ℕ → ℕ → ℕ → ℕ
turns_left first count current =
    if leb first current then count - current + first else first - current

-- Behind a turn that is not the last: fewer are left, and one more has been seen.
next-Seen :
    (first count i j : ℕ)
    → first < count
    → i < count
    → j < count
    → (i + 1) % count ≢ first
    → (turns_left first count ((i + 1) % count) < turns_left first count i)
      × (Seen first ((i + 1) % count) j → (i ≡ j) ⊎ Seen first i j)
      × ((i ≡ j) ⊎ Seen first i j → Seen first ((i + 1) % count) j)
next-Seen first count i j lo hi inside ne = elim (next_index i count hi) [
  | inl (lt, e) ↦
      let ne' : i + 1 ≢ first = λ d. ne (e ∙ d) in
      rw e (
        ground arith,
        λ s. elim (Bool-cases (i == j)) [ inl d ↦ inl (ground arith) | inr d ↦ inr (ground arith) ],
        λ s. ground arith,
      )
  | inr (top, e) ↦
      let ne' : 0 ≢ first = λ d. ne (e ∙ d) in
      rw e (
        ground arith,
        λ s. elim (Bool-cases (i == j)) [ inl d ↦ inl (ground arith) | inr d ↦ inr (ground arith) ],
        λ s. ground arith,
      )
]

-- Behind the last turn all have been seen but the one of that turn.
all-Seen :
    (first count i j : ℕ)
    → first < count
    → i < count
    → (i + 1) % count ≡ first
    → j < count
    → (i ≡ j) ⊎ Seen first i j
all-Seen first count i j lo hi e lt = elim (Bool-cases (i == j)) [
  | inl d ↦ inl (ground arith)
  | inr d ↦ inr (elim (next_index i count hi) [
    | inl (small, f) ↦ let g : i + 1 ≡ first = sym f ∙ e in ground arith
    | inr (top, f) ↦ let g : 0 ≡ first = sym f ∙ e in ground arith
  ])
]

module _ (now : ℕ) (socket : ℕ → Option ℕ) (l : BackendList) where
  abbrev count : ℕ
  count = length l.backends

  abbrev IsDue : ℕ → Type 0
  IsDue i =
      (b : Backend) × (get_elem? l.backends i ≡ some b) × (is_due now l.retry_interval b ≡ true)

  -- Those that have been seen and were due have refused; the others are as they were.
  record IsTurn (s : BackendList) : Type 0 where
    at : s.current < count
    long : length s.backends ≡ count
    interval : s.retry_interval ≡ l.retry_interval
    untouched :
        (j : ℕ)
        → j < count
        → (Seen l.current s.current j → ⊥)
        → get_elem? s.backends j ≡ get_elem? l.backends j
    refused : (j : ℕ) → j < count → IsDue j → Seen l.current s.current j → socket j ≡ none

  -- What `connect` may return.
  abbrev pub IsConnected : BackendList × Option (ℕ × ℕ) → Type 0
  IsConnected (l', none) = (l'.current < count) × ((i : ℕ) → i < count → IsDue i → socket i ≡ none)
  IsConnected (l', some (sd, i)) =
      (i < count) × IsDue i × (socket i ≡ some sd) × (l'.current ≡ (i + 1) % count)

  GoesOn : BackendList → Round BackendList (BackendList × Option (ℕ × ℕ)) → Type 0
  GoesOn s r =
      ((t : BackendList)
        → r ≡ more t
        → IsTurn t × (turns_left l.current count t.current < turns_left l.current count s.current))
      × ((a : BackendList × Option (ℕ × ℕ)) → r ≡ stop a → IsConnected a)

  next_turn-GoesOn :
      (s t : BackendList)
      → l.current < count
      → IsTurn s
      → t.current ≡ (s.current + 1) % count
      → length t.backends ≡ count
      → t.retry_interval ≡ s.retry_interval
      → ((j : ℕ) → s.current ≢ j → get_elem? t.backends j ≡ get_elem? s.backends j)
      → (IsDue s.current → socket s.current ≡ none)
      → GoesOn s (next_turn now socket l.current t)
  unfolding GoesOn next_turn
  next_turn-GoesOn s t first v next long interval untouched refused =
      let inside : t.current < count =
        omega (arith, next, mod-lt (s.current + 1) (let p : 0 < count = omega arith in p)) in
      elim (Bool-cases (t.current == l.current)) [
        | inl d ↦
            let back : (s.current + 1) % count ≡ l.current =
              sym next ∙ (let e : t.current ≡ l.current = ground arith in e) in
            rw d (
              (λ u e. absurd (stop-ne-more e)),
              (λ a e. subst IsConnected (stop-inj e) (
                inside,
                λ j lt due. elim (all-Seen l.current count s.current j first v.at back lt) [
                  | inl f ↦ subst (λ k. IsDue k → socket k ≡ none) f refused due
                  | inr seen ↦ v.refused j lt due seen
                ],
              )),
            )
        | inr d ↦
            let ne : (s.current + 1) % count ≢ l.current =
              λ e. let f : t.current ≡ l.current = next ∙ e in absurd (ground arith) in
            let step =
              λ (j : ℕ) (lt : j < count). next-Seen l.current count s.current j first v.at lt ne in
            rw d (
              (λ u e.
                  subst
                    (λ k.
                      IsTurn k
                      × (turns_left l.current count k.current
                          < turns_left l.current count s.current))
                    (more-inj e)
                    (
                      record {
                        at = inside;
                        long = long;
                        interval = interval ∙ v.interval;
                        untouched = λ j lt unseen.
                            let now_seen : (s.current ≡ j) ⊎ Seen l.current s.current j
                                → Seen l.current t.current j =
                              λ h. subst (λ n. Seen l.current n j) (sym next) ((step j lt).2 h) in
                            untouched j (λ e. unseen (now_seen (inl e)))
                            ∙ v.untouched j lt (λ seen. unseen (now_seen (inr seen)));
                        refused = λ j lt due seen.
                            elim ((step j lt).1 (subst (λ n. Seen l.current n j) next seen)) [
                              | inl f ↦ subst (λ k. IsDue k → socket k ≡ none) f refused due
                              | inr before ↦ v.refused j lt due before
                            ];
                      },
                      subst
                          (λ n. turns_left l.current count n < turns_left l.current count s.current)
                          (sym next) (step s.current v.at).0,
                    )),
              (λ a e. absurd (stop-ne-more (sym e))),
            )
      ]

  try-GoesOn :
      (s : BackendList) (b : Backend) (o : Option ℕ)
      → l.current < count
      → IsTurn s
      → IsDue s.current
      → socket s.current ≡ o
      → GoesOn s (
          try_backend now socket l.current
            (record s { current = (s.current + 1) % length s.backends })
            s.current
            o)
  unfolding GoesOn try_backend
  try-GoesOn s b none first v due e =
      next_turn-GoesOn s _ first v (ap (λ n. (s.current + 1) % n) v.long)
        (length-set_at s.current (down now) s.backends ∙ v.long) refl
        (λ j ne. get_elem?-set_at s.current j (down now) s.backends ne) (λ d. e)
  try-GoesOn s b (some sd) first v due e = (
    (λ t f. absurd (stop-ne-more f)),
    (λ a f. subst IsConnected (stop-inj f) (v.at, due, e, ap (λ n. (s.current + 1) % n) v.long)),
  )

  turn-GoesOn :
      (s : BackendList) → l.current < count → IsTurn s → GoesOn s (turn now socket l.current s)
  unfolding turn turn_at GoesOn
  turn-GoesOn s first v =
      let (b, here) = get_elem?-some s.backends s.current (omega (arith, v.at, v.long)) in
      let original : get_elem? l.backends s.current ≡ some b =
        sym (v.untouched s.current v.at (λ seen. ground arith)) ∙ here in
      subst (λ o. GoesOn s (turn_at now socket l.current s o)) (sym here)
        (elim (Bool-cases (is_due now s.retry_interval b)) [
          | inl d ↦ rw d (
              try-GoesOn s b (socket s.current) first v
                (b, original, ap (λ n. is_due now n b) (sym v.interval) ∙ d) refl)
          | inr d ↦ rw d (
              next_turn-GoesOn s _ first v (ap (λ n. (s.current + 1) % n) v.long) v.long refl
                (λ j ne. refl)
                (λ (b', there, due).
                  let same_backend : b' ≡ b = some-inj (sym there ∙ original) in
                  let f : true ≡ false =
                    sym due
                    ∙ ap (is_due now l.retry_interval) same_backend
                    ∙ ap (λ n. is_due now n b) (sym v.interval)
                    ∙ d in
                  cc))
        ])

-- `connect`, with a current index that is one of a backend's, as it is in a list of a backend or more, returns: the
-- descriptor of a backend that is available, or has been down for the interval, and whose socket connects, with the
-- index behind it as the current one; or -1, and then no such backend is there, so that no backend that can be
-- reached is passed over.
pub connect-IsConnected :
    (now : ℕ) (socket : ℕ → Option ℕ) (l : BackendList)
    → l.current < length l.backends
    → (r : BackendList × Option (ℕ × ℕ)) × (connect now socket l ≡ some r)
      × IsConnected now socket l r
unfolding connect GoesOn
connect-IsConnected now socket l first =
    loop_correct (turn now socket l.current) (IsTurn now socket l) (IsConnected now socket l)
      (λ s. turns_left l.current (length l.backends) s.current)
      (λ s t v e. (turn-GoesOn now socket l s first v).0 t e)
      (λ s a v e. (turn-GoesOn now socket l s first v).1 a e) (suc (length l.backends)) l
      (record {
        at = first;
        long = refl;
        interval = refl;
        untouched = λ j lt unseen. refl;
        refused = λ j lt due seen. absurd (ground arith);
      })
      (ground arith)
