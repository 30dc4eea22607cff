-- ===== src/Fastcgi/Pairs/Moved.antt =====
-- http/fastcgi.cpp: records of pairs whose array has moved before the end.
use gweb_plusplus.Base.{
  ℕ, ◌+◌, ◌%◌, ◌≤◌, ◌<◌, Bool, true, false, ltb, leb, ◌==◌, length, none, some, List, [], ◌∷◌, map,
  size_mod, length-append, All, Bool-cases, Option-cases, ◌⊎◌, inl, inr, arith, ◌≡◌, refl, ap, sym,
  ◌∙◌, subst,
}
use gweb_plusplus.Buffer.{Buffer, rounded, allocate, increment_count, write}
use gweb_plusplus.Buffer.Appends.{IsSound, IsAllocated, allocate-IsAllocated, rounded-le}
use gweb_plusplus.Fastcgi.{header_bytes}
use gweb_plusplus.Fastcgi.Decode.{pairs_bytes}
use gweb_plusplus.Fastcgi.Stream.{padding_for}
use gweb_plusplus.Fastcgi.Pairs.{
  NameValuePairs, Argument, pair_size, argument_bytes, grow, header, add, add_grown, patch,
  end_padded, end_grown, pad_out, end_at, end, while_added, add_all, record_of,
}
use gweb_plusplus.Fastcgi.Pairs.Begun.{IsArgument, pair_of, length-argument_bytes}
use gweb_plusplus.Fastcgi.Pairs.Whole.{argument_bytes-pairs_bytes}

-- The bytes of the pairs.
abbrev total : List Argument → ℕ
total arguments = length (pairs_bytes (map pair_of arguments))

total-cons :
    (a : Argument) (rest : List Argument)
    → IsArgument a
    → total (a ∷ rest) ≡ pair_size a + total rest
total-cons a rest v = omega (
  arith,
  ap length (argument_bytes-pairs_bytes a rest v),
  length-append (argument_bytes a) (pairs_bytes (map pair_of rest)),
  length-argument_bytes a v,
)

-- The next call of `end` goes through a pointer to memory that has been freed, or `n` bytes more make it so.
abbrev IsLost : NameValuePairs → ℕ → Type 0
IsLost s n = (s.header ≡ none) ⊎ ((s.out.used ≤ s.out.size) × (s.out.size < s.out.used + n))

room_of :
    (realloc : ℕ → Bool) (b : Buffer) (n : ℕ) (r : Buffer × Bool)
    → IsAllocated realloc b n r
    → r.1 ≡ true
    → b.used + n ≤ r.0.size
room_of realloc b n (b', true) v e = v.3
room_of realloc b n (b', false) v e = cc

module _ (realloc moves : ℕ → Bool) (succeeds : (n : ℕ) → realloc n ≡ true)
    (moved : (n : ℕ) → moves n ≡ true) where
  -- A call of `grow` that finds no room loses the header.
  abbrev IsGrown : NameValuePairs → ℕ → NameValuePairs → Type 0
  IsGrown s n t =
      (t.out.used ≡ s.out.used)
      × (t.out.increment ≡ s.out.increment)
      × (t.content_length ≡ s.content_length)
      × (((s.out.used + n ≤ s.out.size) × (t ≡ s))
          ⊎ ((s.out.size < s.out.used + n) × (t.header ≡ none)))

  grow-IsGrown :
      (s : NameValuePairs) (n : ℕ)
      → 0 < s.out.increment
      → s.out.used + n + s.out.increment < size_mod
      → (t : NameValuePairs) × (grow realloc moves s n ≡ (t, true)) × IsGrown s n t
  unfolding grow allocate
  grow-IsGrown s n pos lt =
      let small : (n + s.out.used) % size_mod ≡ n + s.out.used = omega arith in
      let room = rounded-le (n + s.out.used) s.out.increment pos (omega arith) in
      elim (Bool-cases (leb (n + s.out.used) s.out.size)) [
        | inl d ↦
            let same : (s.out.size == s.out.size) ≡ true = ground arith in
            (s, rw small (rw d (rw same refl)), (refl, refl, refl, inl (ground arith, refl)))
        | inr d ↦
            let size = rounded (n + s.out.used) s.out.increment in
            let other : (size == s.out.size) ≡ false = ground arith in
            (
              record s { out = record s.out { size = size }; header = none },
              rw small (rw d (rw (succeeds size) (rw other (rw (moved size) refl)))),
              (refl, refl, refl, inr (ground arith, refl)),
            )
      ]

  -- Behind the calls of `add`.
  end-none :
      (s : NameValuePairs)
      → 0 < s.out.increment
      → s.out.used + 8 + s.out.increment < size_mod
      → IsLost s (padding_for s.content_length)
      → end realloc moves s ≡ none
  unfolding end end_at pad_out end_grown end_padded
  end-none s pos lt lost = elim (Option-cases s.header) [
    | inl none_left ↦ ap (end_at realloc moves s) none_left
    | inr (at, here) ↦
        let pad = padding_for s.content_length in
        let few : pad ≤ 7 = ground arith in
        let u : NameValuePairs = record s { out = patch s.out at s.content_length } in
        let (fits, short) = room at here lost in
        let some_bytes : (pad == 0) ≡ false = ground arith in
        let (t, grown, (used, increment, len, c)) =
          grow-IsGrown u pad pos
            (let e : s.out.used + pad + s.out.increment < size_mod = omega arith in e) in
        let gone : t.header ≡ none = elim c [
          | inl (le, same) ↦ absurd (omega arith)
          | inr (full, h) ↦ h
        ] in
        ap (end_at realloc moves s) here
        ∙ rw some_bytes refl
        ∙ ap (end_grown realloc moves pad) grown
        ∙ ap (end_padded realloc moves pad t) gone
  ]
    where
      room :
          (at : ℕ)
          → s.header ≡ some at
          → IsLost s (padding_for s.content_length)
          → (s.out.used ≤ s.out.size) × (s.out.size < s.out.used + padding_for s.content_length)
      room at here (inl gone) = let e : none ≡ some at = sym gone ∙ here in cc
      room at here (inr short) = short

  add-IsLost :
      (a : Argument) (s : NameValuePairs) (n : ℕ)
      → 0 < s.out.increment
      → s.out.used + pair_size a + s.out.increment < size_mod
      → s.content_length + pair_size a < 65536
      → IsLost s (pair_size a + n)
      → (t : NameValuePairs) × (add realloc moves a s ≡ (t, true))
        × IsLost t n
        × (t.out.used ≡ s.out.used + pair_size a)
        × (t.out.increment ≡ s.out.increment)
        × (t.content_length ≡ s.content_length + pair_size a)
  unfolding add add_grown
  add-IsLost a s n pos lt small lost =
      let p = pair_size a in
      let fits : ltb 65535 (s.content_length + p) ≡ false = ground arith in
      let (t, grown, (used, increment, len, c)) = grow-IsGrown s p pos lt in
      let u : NameValuePairs = record t {
        out = increment_count (write t.out (argument_bytes a)) p;
        content_length = (t.content_length + p) % 65536;
      } in
      let used' : (t.out.used + p) % size_mod ≡ s.out.used + p = omega arith in
      (
        u,
        rw fits (ap (add_grown realloc moves a) grown),
        elim c [
          | inr (full, gone) ↦ inl gone
          | inl (le, same) ↦ elim lost [
            | inl gone ↦ inl (ap (λ (x : NameValuePairs). x.header) same ∙ gone)
            | inr (room, short) ↦
                let size : t.out.size ≡ s.out.size = ap (λ (x : NameValuePairs). x.out.size) same in
                inr (omega (arith, used', size), omega (arith, used', size))
          ]
        ],
        used',
        increment,
        omega arith,
      )

  add_all-none :
      (arguments : List Argument) (s : NameValuePairs)
      → All IsArgument arguments
      → 0 < s.out.increment
      → s.out.used + total arguments + 8 + s.out.increment < size_mod
      → s.content_length + total arguments < 65536
      → IsLost s (total arguments + padding_for (s.content_length + total arguments))
      → add_all realloc moves arguments s ≡ none
  unfolding add_all while_added pairs_bytes
  add_all-none [] s v pos lt small lost =
      let e : s.content_length + 0 ≡ s.content_length = omega arith in
      let f : 0 + padding_for (s.content_length + 0) ≡ padding_for s.content_length =
        (let g : 0 + padding_for (s.content_length + 0) ≡ padding_for (s.content_length + 0) =
            omega arith in
          g)
        ∙ ap padding_for e in
      end-none s pos (omega arith) (subst (IsLost s) f lost)
  add_all-none (a ∷ rest) s v pos lt small lost =
      let both = total-cons a rest v.0 in
      let pad = padding_for (s.content_length + total (a ∷ rest)) in
      let e : total (a ∷ rest) + pad ≡ pair_size a + (total rest + pad) = omega (arith, both) in
      let (t, added, lost', used, increment, len) =
        add-IsLost a s (total rest + pad) pos (omega (arith, lt, both)) (omega (arith, small, both))
          (subst (IsLost s) e lost) in
      let f : s.content_length + total (a ∷ rest) ≡ t.content_length + total rest =
        omega (arith, both, len) in
      ap (while_added realloc moves (add_all realloc moves rest)) added
      ∙ add_all-none rest t v.1 (omega (arith, pos, increment))
          (omega (arith, lt, both, used, increment)) (omega (arith, small, both, len))
          (subst (λ n. IsLost t (total rest + padding_for n)) f lost')

  -- Where `realloc` succeeds and moves the array, and where the array that the header is written to has no room for the
  -- pairs and their padding: the header, the calls of `add` and the end lead through a pointer to memory that has been
  -- freed, whichever of the calls it is that finds no room. The names and values must fit 16 bits, as must all of
  -- them together.
  pub record_of_moved :
      (type id : ℕ) (arguments : List Argument) (s : NameValuePairs)
      → All IsArgument arguments
      → IsSound s.out
      → length (pairs_bytes (map pair_of arguments)) < 65536
      → s.out.used + 65568 + s.out.increment < size_mod
      → (allocate realloc s.out 8).0.size
        < s.out.used
          + 8
          + length (pairs_bytes (map pair_of arguments))
          + padding_for (length (pairs_bytes (map pair_of arguments)))
      → record_of realloc moves type id arguments s ≡ none
  unfolding record_of header while_added grow
  record_of_moved type id arguments s v sound small lt short =
      let (a, grown, (used, increment, len, c)) = grow-IsGrown s 8 sound.grows (omega arith) in
      let r = allocate realloc s.out 8 in
      let ok : r.1 ≡ true = ap (λ (x : NameValuePairs × Bool). x.1) grown in
      let out : r.0 ≡ a.out = ap (λ (x : NameValuePairs × Bool). x.0.out) grown in
      let used' : r.0.used ≡ s.out.used = ap (λ (b : Buffer). b.used) out ∙ used in
      let increment' : r.0.increment ≡ s.out.increment =
        ap (λ (b : Buffer). b.increment) out ∙ increment in
      let room =
        room_of realloc s.out 8 r (allocate-IsAllocated realloc s.out 8 sound (omega arith)) ok in
      let begun : NameValuePairs = record {
        out = increment_count (write r.0 (header_bytes type id 0 0)) 8;
        header = some (r.0.used);
        content_length = 0;
      } in
      let at : (r.0.used + 8) % size_mod ≡ s.out.used + 8 = omega arith in
      let start : header realloc moves type id s ≡ (begun, true) = rw ok refl in
      let few : padding_for (0 + total arguments) ≤ 7 = ground arith in
      let zero_more : padding_for (0 + total arguments) ≡ padding_for (total arguments) =
        ap padding_for (let e : 0 + total arguments ≡ total arguments = omega arith in e) in
      ap (while_added realloc moves (add_all realloc moves arguments)) start
      ∙ add_all-none arguments begun v (omega (arith, increment'))
          (omega (arith, at, increment', small)) (omega (arith, small))
          (inr (omega (arith, at, room), omega (arith, at, short, zero_more)))
