-- ===== src/Fastcgi/Rounds.antt =====
-- http/fastcgi.cpp: the rounds of both readers take bytes, so their loops return.
use gweb_plusplus.Base.{
  ℕ, suc, ◌+◌, ◌≤◌, ◌<◌, Bool, true, false, [], ◌∷◌, none, some, ltb, ◌==◌, Bytes, length, drop,
  length-drop, more, stop-ne-more, loop, loop_total, Bool-cases, Option-cases, ◌++◌, inl, inr,
  arith, ◌≡◌, ap, sym, ◌∙◌,
}
use gweb_plusplus.Fastcgi.{
  Header, read_header, read_length, read_lengths, with_name, Callbacks, after_pair, decode_pair,
  decode_round, End, is_invalid, after_record, process_record, process_round,
}

read_length-shorter :
    (bs rest : Bytes) (n : ℕ) → read_length bs ≡ some (n, rest) → length rest < length bs
unfolding read_length
read_length-shorter [] rest n e = cc
read_length-shorter (b ∷ []) rest n e = ground arith
read_length-shorter (b ∷ b2 ∷ []) rest n e = ground arith
read_length-shorter (b ∷ b2 ∷ b1 ∷ []) rest n e = ground arith
read_length-shorter (b ∷ b2 ∷ b1 ∷ b0 ∷ bs) rest n e = ground arith

read_lengths-shorter :
    (bs rest : Bytes) (n v : ℕ)
    → read_lengths (read_length bs) ≡ some (n, v, rest)
    → length rest < length bs
read_lengths-shorter bs rest n v e = elim (Option-cases (read_length bs)) [
  | inl d ↦ let f : none ≡ some (n, v, rest) = ap read_lengths (sym d) ∙ e in cc
  | inr ((m, cs), d) ↦
      let f : with_name m (read_length cs) ≡ some (n, v, rest) = ap read_lengths (sym d) ∙ e in
      elim (Option-cases (read_length cs)) [
        | inl g ↦ let h : none ≡ some (n, v, rest) = ap (with_name m) (sym g) ∙ f in cc
        | inr ((w, ds), g) ↦
            let h : some (m, w, ds) ≡ some (n, v, rest) = ap (with_name m) (sym g) ∙ f in
            let k : ds ≡ rest = cc in
            omega (arith, ap length k, read_length-shorter bs cs m d, read_length-shorter cs ds w g)
      ]
]

read_header-shorter :
    (bs body : Bytes) (h : Header) → read_header bs ≡ some (h, body) → length bs ≡ length body + 8
unfolding read_header
read_header-shorter [] body h e = cc
read_header-shorter (v ∷ []) body h e = cc
read_header-shorter (v ∷ t ∷ []) body h e = cc
read_header-shorter (v ∷ t ∷ i1 ∷ []) body h e = cc
read_header-shorter (v ∷ t ∷ i1 ∷ i0 ∷ []) body h e = cc
read_header-shorter (v ∷ t ∷ i1 ∷ i0 ∷ c1 ∷ []) body h e = cc
read_header-shorter (v ∷ t ∷ i1 ∷ i0 ∷ c1 ∷ c0 ∷ []) body h e = cc
read_header-shorter (v ∷ t ∷ i1 ∷ i0 ∷ c1 ∷ c0 ∷ p ∷ []) body h e = cc
read_header-shorter (v ∷ t ∷ i1 ∷ i0 ∷ c1 ∷ c0 ∷ p ∷ z ∷ rest) body h e =
    let d : rest ≡ body = cc in omega (arith, ap length d)

pub read_header-append :
    (bs body tail : Bytes) (h : Header)
    → read_header bs ≡ some (h, body)
    → read_header (bs ++ tail) ≡ some (h, body ++ tail)
unfolding read_header
read_header-append [] body tail h e = cc
read_header-append (v ∷ []) body tail h e = cc
read_header-append (v ∷ t ∷ []) body tail h e = cc
read_header-append (v ∷ t ∷ i1 ∷ []) body tail h e = cc
read_header-append (v ∷ t ∷ i1 ∷ i0 ∷ []) body tail h e = cc
read_header-append (v ∷ t ∷ i1 ∷ i0 ∷ c1 ∷ []) body tail h e = cc
read_header-append (v ∷ t ∷ i1 ∷ i0 ∷ c1 ∷ c0 ∷ []) body tail h e = cc
read_header-append (v ∷ t ∷ i1 ∷ i0 ∷ c1 ∷ c0 ∷ p ∷ []) body tail h e = cc
read_header-append (v ∷ t ∷ i1 ∷ i0 ∷ c1 ∷ c0 ∷ p ∷ z ∷ rest) body tail h e = cc

module _ {S : Type 0} (c : Callbacks S) where
  after_pair-shorter :
      (rest rest' : Bytes) (r : S × Bool) (t : S)
      → after_pair c rest r ≡ more (t, rest')
      → rest ≡ rest'
  unfolding after_pair
  after_pair-shorter rest rest' (s, false) t e = cc
  after_pair-shorter rest rest' (s, true) t e = elim (Bool-cases (length rest == 0)) [
    | inl z ↦ absurd (stop-ne-more (rw z at e))
    | inr z ↦ let f : more (s, rest) ≡ more (t, rest') = rw z at e in cc
  ]

  decode_pair-shorter :
      (s t : S) (n v : ℕ) (rest rest' : Bytes)
      → decode_pair c s (some (n, v, rest)) ≡ more (t, rest')
      → length rest' ≤ length rest
  unfolding decode_pair
  decode_pair-shorter s t n v rest rest' e = elim (Bool-cases (ltb (length rest) (n + v))) [
    | inl d ↦ absurd (stop-ne-more (rw d at e))
    | inr d ↦ omega (
      arith,
      ap length (after_pair-shorter (drop (n + v) rest) rest' _ t (rw d at e)),
      length-drop (n + v) rest,
    )
  ]

  stopped : (s : S) {k : S × Bytes} → decode_pair c s none ≡ more k → ⊥
  unfolding decode_pair
  stopped s e = cc

  decode_round-falls : (k l : S × Bytes) → decode_round c k ≡ more l → length l.1 < length k.1
  unfolding decode_round
  decode_round-falls (s, bs) (t, rest) e = elim (Option-cases (read_lengths (read_length bs))) [
    | inl d ↦ absurd (stopped s (ap (decode_pair c s) (sym d) ∙ e))
    | inr ((n, v, cs), d) ↦ omega (
      arith,
      read_lengths-shorter bs cs n v d,
      decode_pair-shorter s t n v cs rest (ap (decode_pair c s) (sym d) ∙ e),
    )
  ]

  -- The loop of `decode_name_value_pairs` returns, on any bytes.
  decode_total :
      (s : S) (bs : Bytes)
      → (r : S × Bool) × (loop (decode_round c) (suc (length bs)) (s, bs) ≡ some r)
  decode_total s bs =
      loop_total (decode_round c) (λ k. length k.1) decode_round-falls (suc (length bs)) (s, bs)
        (omega arith)

  waited : (s : S) (bs : Bytes) {k : S × Bytes} → process_record c s bs none ≡ more k → ⊥
  unfolding process_record
  waited s bs e = cc

  after_record-shorter :
      (rest rest' : Bytes) (r : S × Bool) (t : S)
      → after_record c rest r ≡ more (t, rest')
      → rest ≡ rest'
  unfolding after_record
  after_record-shorter rest rest' (s, true) t e = cc
  after_record-shorter rest rest' (s, false) t e = cc

  process_record-shorter :
      (s t : S) (h : Header) (bs body rest : Bytes)
      → process_record c s bs (some (h, body)) ≡ more (t, rest)
      → length rest ≤ length body
  unfolding process_record
  process_record-shorter s t h bs body rest e = elim (Bool-cases (is_invalid h)) [
    | inl d ↦ absurd (stop-ne-more (rw d at e))
    | inr d ↦ elim (Bool-cases (ltb (length body) (h.len + h.padding))) [
      | inl g ↦ absurd (stop-ne-more (rw g at (rw d at e)))
      | inr g ↦ omega (
        arith,
        length-drop (h.len + h.padding) body,
        ap length
            (after_record-shorter (drop (h.len + h.padding) body) rest _ t (rw g at (rw d at e))),
      )
    ]
  ]

  pub process_round-falls : (k l : S × Bytes) → process_round c k ≡ more l → length l.1 < length k.1
  unfolding process_round
  process_round-falls (s, bs) (t, rest) e = elim (Option-cases (read_header bs)) [
    | inl d ↦ absurd (waited s bs (ap (process_record c s bs) (sym d) ∙ e))
    | inr ((h, body), d) ↦ omega (
      arith,
      read_header-shorter bs body h d,
      process_record-shorter s t h bs body rest (ap (process_record c s bs) (sym d) ∙ e),
    )
  ]

  -- The loop of `process` returns, on any bytes.
  process_loop-total :
      (s : S) (bs : Bytes)
      → (r : S × Bytes × End) × (loop (process_round c) (suc (length bs)) (s, bs) ≡ some r)
  process_loop-total s bs =
      loop_total (process_round c) (λ k. length k.1) process_round-falls (suc (length bs)) (s, bs)
        (omega arith)
