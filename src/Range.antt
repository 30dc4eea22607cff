-- ===== src/Range.antt =====
-- http/range_parser.h, http/range_parser.cpp, util/range_list.h and util/range_list.cpp: the parser
-- of the byte ranges of a `Range` header, for a file of a given size, and the list that it fills. Whether
-- `realloc` succeeds for a number of entries is a parameter.
pub mod Bounds
mod Examples
use gweb_plusplus.Base.{
  ℕ, zero, suc, ◌+◌, ◌-◌, ◌*◌, Bool, true, false, not, ◌||◌, List, [], ◌∷◌, ◌++◌, Option, none,
  some, ltb, leb, ◌==◌, if◌then◌else◌, is_digit, is_white_space, Bytes, length, get_elem?, ℤ, pos,
  negsuc, ltb_ℤ, min_ℤ, off_t, pos_part, min,
}

-- `range_list::range`
pub record Range : Type 0 where
  pub from : ℤ
  pub to : ℤ

-- `_M_size`, and the first `_M_used` entries of `_M_ranges`.
pub record RangeList : Type 0 where
  pub size : ℕ
  pub ranges : List Range

-- The constructor and `free`.
abbrev pub no_ranges : RangeList
no_ranges = record { size = 0; ranges = [] }

pub reset_ranges : RangeList → RangeList
reset_ranges l = record l { ranges = [] }

pub count_ranges : RangeList → ℕ
count_ranges l = length l.ranges

-- Both forms of `get`.
pub get_range : RangeList → ℕ → Option Range
get_range l i = if leb (length l.ranges) i then none else get_elem? l.ranges i

module _ (realloc : ℕ → Bool) where
  -- `RANGE_ALLOC` more entries, where the array is full.
  pub add : RangeList → ℤ → ℤ → RangeList × Bool
  add l from to =
      let l' = record l { ranges = l.ranges ++ (record { from = from; to = to } ∷ []) } in
      if ltb_ℤ to from
      then (l, false)
      else if length l.ranges == l.size
      then (if realloc (l.size + 2) then (record l' { size = l.size + 2 }, true) else (l, false))
      else (l', true)

-- The states 0 to 9, by the source's comments.
pub data State : Type 0 where
  initial in_from after_from after_dash in_to after_to : State
  new_range suffix_start suffix_length after_suffix : State

-- The local variables. None of `from`, `to` and `count` is ever negative: a digit sets it, and a value
-- that is not smaller replaces it. `to = MIN(to, filesize - 1)` is not recorded: `to` is set again
-- before it is read.
pub record Scan : Type 0 where
  pub state : State
  pub from : ℕ
  pub to : ℕ
  pub count : ℕ

abbrev start : Scan
start = record { state = initial; from = 0; to = 0; count = 0 }

-- `filesize - 1`
abbrev pub last : ℕ → ℤ
last zero = negsuc 0
last (suc n) = pos n

-- `(n * 10) + (c - '0')`, in an `off_t` that wraps around.
abbrev pub with_digit : ℕ → ℕ → ℤ
with_digit n c = off_t (n * 10 + (c - b'0'))

-- What a byte does: the scan goes on, a range is added first, or the function returns false.
pub data Act : Type 0 where
  scan : Scan → Act
  store : ℤ → ℤ → Scan → Act
  fail : Act

abbrev goto : Scan → State → Act
goto s st = scan (record s { state = st })

-- States 0 and 6.
step_start : Scan → ℕ → Act
step_start s c =
    if is_digit c
    then scan (record s { from = c - b'0'; state = in_from })
    else if c == b'-'
    then goto s suffix_start
    else if not (is_white_space c)
    then fail
    else scan s

step_from : ℕ → Scan → ℕ → Act
step_from size s c =
    let n = with_digit s.from c in
    if is_digit c
    then (if ltb_ℤ n (pos s.from) || not (ltb_ℤ n (pos size))
        then fail
        else scan (record s { from = pos_part n }))
    else if c == b'-'
    then goto s after_dash
    else if is_white_space c
    then goto s after_from
    else fail

step_to : ℕ → Scan → ℕ → Act
step_to size s c =
    let n = with_digit s.to c in
    if is_digit c
    then (if ltb_ℤ n (pos s.to) then fail else scan (record s { to = pos_part n }))
    else if c == b','
    then store (pos s.from) (min_ℤ (pos s.to) (last size)) (record s { state = new_range })
    else if is_white_space c
    then goto s after_to
    else fail

-- The end of a suffix range, in states 8 and 9.
store_suffix : ℕ → Scan → State → Act
store_suffix size s st =
    let count = min s.count size in
    if s.count == 0
    then fail
    else store (pos (size - count)) (last size) (record s { count = count; state = st })

step_suffix : ℕ → Scan → ℕ → Act
unfolding store_suffix
step_suffix size s c =
    let n = with_digit s.count c in
    if is_digit c
    then (if ltb_ℤ n (pos s.count) then fail else scan (record s { count = pos_part n }))
    else if c == b','
    then store_suffix size s new_range
    else if is_white_space c
    then goto s after_suffix
    else fail

pub step_in : State → ℕ → Scan → ℕ → Act
unfolding step_start step_from step_to step_suffix store_suffix
step_in initial size s c = step_start s c
step_in in_from size s c = step_from size s c
step_in after_from size s c =
    if c == b'-' then goto s after_dash else if not (is_white_space c) then fail else scan s
step_in after_dash size s c =
    if is_digit c
    then scan (record s { to = c - b'0'; state = in_to })
    else if c == b','
    then store (pos s.from) (last size) (record s { state = new_range })
    else if not (is_white_space c)
    then fail
    else scan s
step_in in_to size s c = step_to size s c
step_in after_to size s c =
    if c == b','
    then store (pos s.from) (min_ℤ (pos s.to) (last size)) (record s { state = new_range })
    else if not (is_white_space c)
    then fail
    else scan s
step_in new_range size s c = step_start s c
step_in suffix_start size s c =
    if is_digit c
    then scan (record s { count = c - b'0'; state = suffix_length })
    else if not (is_white_space c)
    then fail
    else scan s
step_in suffix_length size s c = step_suffix size s c
step_in after_suffix size s c =
    if c == b','
    then store_suffix size s new_range
    else if not (is_white_space c)
    then fail
    else scan s

-- The `switch` behind the loop. In state 0 nothing is added.
pub finish : State → ℕ → Scan → Act
unfolding store_suffix
finish initial size s = scan s
finish after_dash size s = store (pos s.from) (last size) s
finish in_to size s = store (pos s.from) (min_ℤ (pos s.to) (last size)) s
finish after_to size s = store (pos s.from) (min_ℤ (pos s.to) (last size)) s
finish suffix_length size s = store_suffix size s suffix_length
finish after_suffix size s = store_suffix size s after_suffix
finish _ size s = fail

-- `if (!ranges.add(...)) return false`
pub after_add : RangeList × Bool → (RangeList → RangeList × Bool) → RangeList × Bool
after_add (l, true) k = k l
after_add (l, false) k = (l, false)

module _ (realloc : ℕ → Bool) where
  -- The list and the result of the function, after the last act.
  pub finish_with : Act → RangeList → RangeList × Bool
  finish_with (scan s) l = (l, true)
  finish_with (store from to s) l = add realloc l from to
  finish_with fail l = (l, false)

  -- The loop on what follows an act; the call behind it is made only where the act goes on.
  pub after_act : Act → RangeList → (Scan → RangeList → RangeList × Bool) → RangeList × Bool
  after_act (scan s) l loop = loop s l
  after_act (store from to s) l loop = after_add (add realloc l from to) (loop s)
  after_act fail l loop = (l, false)

  pub scan_ranges : ℕ → Bytes → Scan → RangeList → RangeList × Bool
  unfolding step_in finish finish_with after_act after_add
  scan_ranges size [] s l = finish_with (finish s.state size s) l
  scan_ranges size (c ∷ cs) s l = after_act (step_in s.state size s c) l (scan_ranges size cs)

  pub parse_ranges : ℕ → Bytes → RangeList → RangeList × Bool
  unfolding scan_ranges
  parse_ranges size text l = scan_ranges size text start l
