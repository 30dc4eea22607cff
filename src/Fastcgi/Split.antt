-- ===== src/Fastcgi/Split.antt =====
-- http/fastcgi.cpp: `process`, called as the bytes of an application come in.
use gweb_plusplus.Base.{
  ℕ, zero, suc, ◌+◌, ◌≤◌, ◌<◌, Bool, true, false, [], ◌++◌, Option, none, some, some-inj, ltb,
  Bytes, length, drop, length-append, take-append, drop-append, more, stop, stop-ne-more, stop-inj,
  loop, loop-more, loop-stop, loop_fuel, Round-cases, Bool-cases, Option-cases, inl, inr, arith,
  ◌≡◌, refl, ap, sym, ◌∙◌,
}
use gweb_plusplus.Fastcgi.{
  Header, read_header, Callbacks, End, waits, discards, fails, is_invalid, after_record,
  process_record, process_round, with_buffer, process,
}
use gweb_plusplus.Fastcgi.Rounds.{read_header-append, process_round-falls}

module _ {S : Type 0} (c : Callbacks S) where
  after_record-append :
      (rest left tail : Bytes) (r : S × Bool) (t : S)
      → after_record c rest r ≡ more (t, left)
      → after_record c (rest ++ tail) r ≡ more (t, left ++ tail)
  unfolding after_record
  after_record-append rest left tail (s, true) t e =
      let d : rest ≡ left = cc in let f : s ≡ t = cc in cc
  after_record-append rest left tail (s, false) t e = cc

  process_record-append :
      (s t : S) (h : Header) (a b body left : Bytes)
      → process_record c s a (some (h, body)) ≡ more (t, left)
      → process_record c s (a ++ b) (some (h, body ++ b)) ≡ more (t, left ++ b)
  unfolding process_record
  process_record-append s t h a b body left e = elim (Bool-cases (is_invalid h)) [
    | inl d ↦ absurd (stop-ne-more (rw d at e))
    | inr d ↦ elim (Bool-cases (ltb (length body) (h.len + h.padding))) [
      | inl g ↦ absurd (stop-ne-more (rw g at (rw d at e)))
      | inr g ↦
          let whole : h.len + h.padding ≤ length body = ground arith in
          let k : ltb (length (body ++ b)) (h.len + h.padding) ≡ false =
            ground (arith, length-append body b) in
          rw d (
            rw k (
              rw (drop-append (h.len + h.padding) body b whole) (
                rw (take-append h.len body b (omega arith)) (
                  after_record-append (drop (h.len + h.padding) body) left b _ t
                    (rw g at (rw d at e))))))
    ]
  ]

  process_round-append :
      (s t : S) (a b left : Bytes)
      → process_round c (s, a) ≡ more (t, left)
      → process_round c (s, a ++ b) ≡ more (t, left ++ b)
  unfolding process_round process_record
  process_round-append s t a b left e = elim (Option-cases (read_header a)) [
    | inl d ↦ absurd (stop-ne-more (ap (process_record c s a) (sym d) ∙ e))
    | inr ((h, body), d) ↦
        ap (process_record c s (a ++ b)) (read_header-append a body b h d)
        ∙ process_record-append s t h a b body left (ap (process_record c s a) (sym d) ∙ e)
  ]

  after_record-ne-waits :
      (rest left : Bytes) (r : S × Bool) (t : S) → after_record c rest r ≡ stop (t, left, waits) → ⊥
  unfolding after_record
  after_record-ne-waits rest left (s, true) t e = cc
  after_record-ne-waits rest left (s, false) t e = cc

  -- A round that wants more bytes leaves everything as it was.
  process_record-waits :
      (s t : S) (a left : Bytes) (o : Option (Header × Bytes))
      → process_record c s a o ≡ stop (t, left, waits)
      → (s ≡ t) × (a ≡ left)
  unfolding process_record
  process_record-waits s t a left none e = (
    ap (λ (k : S × Bytes × End). k.0) (stop-inj e),
    ap (λ (k : S × Bytes × End). k.1) (stop-inj e),
  )
  process_record-waits s t a left (some (h, body)) e = elim (Bool-cases (is_invalid h)) [
    | inl d ↦ let f : stop (s, [], discards) ≡ stop (t, left, waits) = rw d at e in cc
    | inr d ↦ elim (Bool-cases (ltb (length body) (h.len + h.padding))) [
      | inl g ↦
          let f = stop-inj (rw g at (rw d at e)) in
          (ap (λ (k : S × Bytes × End). k.0) f, ap (λ (k : S × Bytes × End). k.1) f)
      | inr g ↦ absurd (after_record-ne-waits _ left _ t (rw g at (rw d at e)))
    ]
  ]

  process_round-waits :
      (s t : S) (a left : Bytes)
      → process_round c (s, a) ≡ stop (t, left, waits)
      → (s ≡ t) × (a ≡ left)
  unfolding process_round
  process_round-waits s t a left e = process_record-waits s t a left (read_header a) e

  loop-append :
      (n m k : ℕ) (s t : S) (a b left : Bytes)
      → loop (process_round c) n (s, a) ≡ some (t, left, waits)
      → length (a ++ b) < m
      → length (left ++ b) < k
      → loop (process_round c) m (s, a ++ b) ≡ loop (process_round c) k (t, left ++ b)
  unfolding loop
  loop-append zero m k s t a b left e lm lk = cc
  loop-append (suc n) zero k s t a b left e lm lk = absurd (omega arith)
  loop-append (suc n) (suc m) k s t a b left e lm lk = elim (Round-cases (process_round c (s, a))) [
    | inl ((u, rest), d) ↦
        let f = process_round-append s u a b rest d in
        loop-more (process_round c) m f
        ∙ loop-append n m k u t rest b left (sym (loop-more (process_round c) n d) ∙ e)
            (omega (arith, lm, process_round-falls c (s, a ++ b) (u, rest ++ b) f)) lk
    | inr (r, d) ↦
        let g = sym (loop-stop (process_round c) n d) ∙ e in
        let (f, h) = process_round-waits s t a left (d ∙ ap stop (some-inj g)) in
        loop_fuel (process_round c) (λ l. length l.1) (process_round-falls c) (suc m) k (s, a ++ b)
          lm (omega (arith, lk, ap length h, length-append a b, length-append left b))
        ∙ ap (λ u. loop (process_round c) k (u, a ++ b)) f
        ∙ ap (λ x. loop (process_round c) k (t, x ++ b)) h
  ]

  -- The buffer aside where a callback has failed: it is then closed.
  abbrev pub outcome : Option (S × Bytes × End) → Option (S × Bytes × End)
  outcome = with_buffer []

  pub outcome-with_buffer :
      (bytes : Bytes) (o : Option (S × Bytes × End)) → outcome (with_buffer bytes o) ≡ outcome o
  outcome-with_buffer bytes none = refl
  outcome-with_buffer bytes (some (s, rest, waits)) = refl
  outcome-with_buffer bytes (some (s, rest, discards)) = refl
  outcome-with_buffer bytes (some (s, rest, fails)) = refl

  with_buffer-waits :
      (bytes left : Bytes) (t : S) (o : Option (S × Bytes × End))
      → with_buffer bytes o ≡ some (t, left, waits)
      → o ≡ some (t, left, waits)
  with_buffer-waits bytes left t none e = e
  with_buffer-waits bytes left t (some (s, rest, waits)) e = e
  with_buffer-waits bytes left t (some (s, rest, discards)) e = e
  with_buffer-waits bytes left t (some (s, rest, fails)) e =
      absurd (apart (ap (λ (k : S × Bytes × End). k.2) (some-inj e)))
    where
      apart : fails ≡ waits → ⊥
      apart d = cc

  -- However the network splits what an application sends: where `process` has taken the records of the
  -- first piece and kept the bytes behind them, its call on those bytes and the second piece does what one
  -- call on both pieces would have done, with the buffer aside where a callback fails.
  pub process-append :
      (s t : S) (a b left : Bytes)
      → process c s a ≡ some (t, left, waits)
      → outcome (process c s (a ++ b)) ≡ outcome (process c t (left ++ b))
  unfolding process
  process-append s t a b left e =
      let f = with_buffer-waits a left t _ e in
      outcome-with_buffer (a ++ b) _
      ∙ ap outcome (
          loop-append (suc (length a)) (suc (length (a ++ b))) (suc (length (left ++ b))) s t a b
            left f (omega arith) (omega arith))
      ∙ sym (outcome-with_buffer (left ++ b) _)
