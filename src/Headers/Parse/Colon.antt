-- ===== src/Headers/Parse/Colon.antt =====
-- http/http_headers.cpp: `parse` at the colon behind a name.
use gweb_plusplus.Base.{
  Bool-cases, inl, inr, ℕ, ◌+◌, ◌-◌, ◌<◌, Bool, true, false, not, ◌&&◌, ◌∷◌, ◌==◌, if◌then◌else◌,
  Bytes, more, stop, ◌≡◌, refl, ap, ◌∙◌,
}
use gweb_plusplus.Headers.Table.{unknown_header}
use gweb_plusplus.Headers.Store.{slice}
use gweb_plusplus.Headers.Parse.{
  in_name, after_colon, error_wrong_headers, Parser, wrong, header_of, is_repeated, with_header,
  on_colon, step_name, step, advance, run,
}
use gweb_plusplus.Headers.Parse.Pieces.{run-more}

module _ (realloc : ℕ → Bool) (buf : Bytes) where
  -- The parser behind the `:`, where it goes on.
  abbrev pub with_name : Parser → ℕ → Parser
  with_name p h = record p {
    header = h;
    name = if h == unknown_header then p.token else p.name;
    namelen = p.offset - p.token;
    token = 0;
    state = after_colon;
  }

  with_header-go :
      (p : Parser) (h : ℕ)
      → (not (h == unknown_header) && is_repeated p h) ≡ false
      → with_header p h
        ≡ more (record p {
          header = h;
          name = if h == unknown_header then p.token else p.name;
          token = 0;
          state = after_colon;
        })
  unfolding with_header
  with_header-go p h e = elim (Bool-cases (h == unknown_header)) [
    | inl u ↦ rw u refl
    | inr u ↦ let r : is_repeated p h ≡ false = rw u at e in rw u (rw r refl)
  ]

  with_header-stop :
      (p : Parser) (h : ℕ)
      → (not (h == unknown_header) && is_repeated p h) ≡ true
      → with_header p h ≡ wrong (record p { header = h })
  unfolding with_header
  with_header-stop p h e = elim (Bool-cases (h == unknown_header)) [
    | inl u ↦ let r : false ≡ true = rw u at e in absurd cc
    | inr u ↦ let r : is_repeated p h ≡ true = rw u at e in rw u (rw r refl)
  ]

  pub colon-go :
      (cs : Bytes) (p : Parser) (name : Bytes)
      → slice buf p.token (p.offset - p.token) ≡ name
      → p.offset < 8192
      → (not (header_of name == unknown_header) && is_repeated p (header_of name)) ≡ false
      → run realloc buf (b':' ∷ cs) (record p { state = in_name })
        ≡ run realloc buf cs (record (with_name p (header_of name)) { offset = p.offset + 1 })
  unfolding step step_name on_colon is_repeated
  colon-go cs p name e lt once =
      run-more realloc buf cs b':' (record p { state = in_name }) (with_name p (header_of name))
        (ap
            (λ n.
              with_header (record p { state = in_name; namelen = p.offset - p.token })
                (header_of n))
            e
          ∙ with_header-go (record p { state = in_name; namelen = p.offset - p.token })
              (header_of name) once)
        lt

  pub colon-stop :
      (cs : Bytes) (p : Parser) (name : Bytes)
      → slice buf p.token (p.offset - p.token) ≡ name
      → (not (header_of name == unknown_header) && is_repeated p (header_of name)) ≡ true
      → run realloc buf (b':' ∷ cs) (record p { state = in_name }) ≡ (
        record p { namelen = p.offset - p.token; header = header_of name; state = in_name },
        error_wrong_headers,
      )
  unfolding run advance step step_name on_colon is_repeated
  colon-stop cs p name e twice =
      ap (λ t. elim (advance t) [ more u ↦ run realloc buf cs u | stop r ↦ r ])
        (ap
            (λ n.
              with_header (record p { state = in_name; namelen = p.offset - p.token })
                (header_of n))
            e
          ∙ with_header-stop (record p { state = in_name; namelen = p.offset - p.token })
              (header_of name) twice)
