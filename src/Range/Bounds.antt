-- ===== src/Range/Bounds.antt =====
-- http/range_parser.cpp: where the ranges that the parser adds lie.
use gweb_plusplus.Base.{
  ℕ, ◌+◌, ◌≤◌, ◌<◌, Bool, true, false, [], ◌∷◌, ◌++◌, arith, Bytes, length, length-append, All,
  All-append, ℤ, pos, pos_part, neg_part, ◌≤ℤ◌,
}
use gweb_plusplus.Range.{
  Range, RangeList, add, State, Scan, Act, scan, store, fail, step_in, finish, finish_with,
  after_add, after_act, scan_ranges, parse_ranges,
}

infix 50 ◌<ℤ◌
abbrev pub ◌<ℤ◌ : ℤ → ℤ → Type 0
a <ℤ b = pos_part a + neg_part b < pos_part b + neg_part a

-- 0 ≤ from ≤ to < filesize
pub record IsWithin (size : ℕ) (r : Range) : Type 0 where
  pub nonneg : pos 0 ≤ℤ r.from
  pub ordered : r.from ≤ℤ r.to
  pub inside : r.to <ℤ pos size

-- The entries lie within the file, and fit the array.
pub record IsValid (size : ℕ) (l : RangeList) : Type 0 where
  pub within : All (IsWithin size) l.ranges
  pub fits : length l.ranges ≤ l.size

-- What an act may add.
abbrev IsBounded : ℕ → Act → Type 0
IsBounded size (store from to s) = (pos 0 ≤ℤ from) × (to <ℤ pos size)
IsBounded size _ = Unit

step_in-IsBounded :
    (st : State) (size : ℕ) (s : Scan) (c : ℕ) → IsBounded size (step_in st size s c)
unfolding step_in
step_in-IsBounded State.initial size s c = ground arith
step_in-IsBounded _ size s c = ground arith

finish-IsBounded : (st : State) (size : ℕ) (s : Scan) → IsBounded size (finish st size s)
unfolding finish
finish-IsBounded State.initial size s = tt
finish-IsBounded _ size s = ground arith

after_add-IsValid :
    (size : ℕ) (r : RangeList × Bool) (k : RangeList → RangeList × Bool)
    → IsValid size r.0
    → ((m : RangeList) → IsValid size m → IsValid size (k m).0)
    → IsValid size (after_add r k).0
unfolding after_add
after_add-IsValid size (l, true) k v h = h l v
after_add-IsValid size (l, false) k v h = v

module _ (realloc : ℕ → Bool) where
  added-IsValid :
      (size : ℕ) (l : RangeList) (r : Range) (n : ℕ)
      → IsValid size l
      → IsWithin size r
      → length l.ranges + 1 ≤ n
      → IsValid size (record { size = n; ranges = l.ranges ++ (r ∷ []) })
  added-IsValid size l r n v w h = record {
    within = All-append (IsWithin size) l.ranges (r ∷ []) v.within (w, tt);
    fits = omega (arith, length-append l.ranges (r ∷ []));
  }

  pub add-IsValid :
      (size : ℕ) (l : RangeList) (from to : ℤ)
      → IsValid size l
      → pos 0 ≤ℤ from
      → to <ℤ pos size
      → IsValid size (add realloc l from to).0
  unfolding add
  add-IsValid size l from to v lo hi =
      let r : Range = record { from = from; to = to } in
      ground (arith, added-IsValid size l r (l.size + 2) v, added-IsValid size l r l.size v)

  finish_with-IsValid :
      (size : ℕ) (a : Act) (l : RangeList)
      → IsBounded size a
      → IsValid size l
      → IsValid size (finish_with realloc a l).0
  unfolding finish_with
  finish_with-IsValid size (scan s) l b v = v
  finish_with-IsValid size (store from to s) l b v = add-IsValid size l from to v b.0 b.1
  finish_with-IsValid size fail l b v = v

  after_act-IsValid :
      (size : ℕ) (a : Act) (l : RangeList) (loop : Scan → RangeList → RangeList × Bool)
      → IsBounded size a
      → IsValid size l
      → ((s : Scan) (m : RangeList) → IsValid size m → IsValid size (loop s m).0)
      → IsValid size (after_act realloc a l loop).0
  unfolding after_act
  after_act-IsValid size (scan s) l loop b v h = h s l v
  after_act-IsValid size (store from to s) l loop b v h =
      after_add-IsValid size (add realloc l from to) (loop s) (add-IsValid size l from to v b.0 b.1)
        (h s)
  after_act-IsValid size fail l loop b v h = v

  scan_ranges-IsValid :
      (size : ℕ) (text : Bytes) (s : Scan) (l : RangeList)
      → IsValid size l
      → IsValid size (scan_ranges realloc size text s l).0
  unfolding scan_ranges
  scan_ranges-IsValid size [] s l v =
      finish_with-IsValid size _ l (finish-IsBounded s.state size s) v
  scan_ranges-IsValid size (c ∷ cs) s l v =
      after_act-IsValid size _ l _ (step_in-IsBounded s.state size s c) v
        (λ t m w. scan_ranges-IsValid size cs t m w)

  -- Whatever the header says, and whatever `realloc` does, each range in the list that
  -- `range_parser::parse` leaves lies within the file (0 ≤ from ≤ to < filesize), and the entries fit
  -- the array, if that holds of the list it is given; also where it returns false.
  pub parse_ranges-IsValid :
      (size : ℕ) (text : Bytes) (l : RangeList)
      → IsValid size l
      → IsValid size (parse_ranges realloc size text l).0
  unfolding parse_ranges
  parse_ranges-IsValid size text l v = scan_ranges-IsValid size text _ l v
