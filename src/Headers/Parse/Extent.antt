-- ===== src/Headers/Parse/Extent.antt =====
-- http/http_headers.cpp: how far `parse` has come when it returns.
use gweb_plusplus.Base.{
  ℕ, suc, ◌+◌, ◌≤◌, ◌<◌, Bool, [], ◌∷◌, ltb, Bytes, length, drop, more, stop, Bool-cases, inl, inr,
  arith, ◌≡◌, sym, length-drop, subst,
}
use gweb_plusplus.Headers.Store.Room.{IsSound}
use gweb_plusplus.Headers.Parse.{
  ParseResult, error_no_memory, error_wrong_headers, error_headers_too_large, not_end_of_header,
  end_of_header, Parser, Turn, step, advance, run, parse,
}
use gweb_plusplus.Headers.Parse.Places.{IsIn, IsReading, Keeps}
use gweb_plusplus.Headers.Parse.Rounds.{step-Keeps}

-- What `parse` has done when it returns.
abbrev pub Ends : Bytes → Parser × ParseResult → Type 0
Ends buf (q, not_end_of_header) = IsReading q × (q.offset ≡ length buf)
Ends buf (q, end_of_header n) = IsSound q.store × (n ≡ q.offset + 1) × (n ≤ length buf)
Ends buf (q, error_headers_too_large) = IsSound q.store × (q.offset ≡ 8193) × (8193 ≤ length buf)
Ends buf (q, error_no_memory) = IsSound q.store × (q.offset < length buf)
Ends buf (q, error_wrong_headers) = IsSound q.store × (q.offset < length buf)

module _ (realloc : ℕ → Bool) (buf : Bytes) where
  unfoldable pub finish : Bytes → Turn → Parser × ParseResult
  finish cs t = elim t [ more q ↦ run realloc buf cs q | stop r ↦ r ]

  returned-Ends :
      (n : ℕ) (q : Parser) (r : ParseResult)
      → n < length buf
      → Keeps n (stop (q, r))
      → Ends buf (q, r)
  returned-Ends n q error_no_memory lt k = (k.0, omega (arith, k.1))
  returned-Ends n q error_wrong_headers lt k = (k.0, omega (arith, k.1))
  returned-Ends n q error_headers_too_large lt k = absurd k.2
  returned-Ends n q not_end_of_header lt k = absurd k.2
  returned-Ends n q (end_of_header m) lt k = (k.0, omega (arith, k.1, k.2), omega (arith, k.2))

  turn-Ends :
      (n : ℕ) (cs : Bytes) (t : Turn)
      → Keeps n t
      → n ≤ 8192
      → n + suc (length cs) ≡ length buf
      → ((q : Parser)
          → IsReading q
          → q.offset + length cs ≡ length buf
          → Ends buf (run realloc buf cs q))
      → Ends buf (finish cs (advance t))
  unfolding advance finish
  turn-Ends n cs (more q) ((s, v), at) small e ih = elim (Bool-cases (ltb 8192 (q.offset + 1))) [
    | inl d ↦
        let h : 8192 < q.offset + 1 = ground arith in
        rw d (v.sound, omega (arith, small, at, h), omega (arith, small, e, at, h))
    | inr d ↦ rw d (
        ih (record q { offset = q.offset + 1 })
          (subst (λ t. IsIn t (record q { offset = q.offset + 1 })) (sym v.at) v, ground arith)
          (omega (arith, e, at)))
  ]
  turn-Ends n cs (stop (q, r)) k small e ih = returned-Ends n q r (omega arith) k

  run-Ends :
      (cs : Bytes) (p : Parser)
      → IsReading p
      → p.offset + length cs ≡ length buf
      → Ends buf (run realloc buf cs p)
  unfolding run finish
  run-Ends [] p v e = (v, omega (arith, e))
  run-Ends (c ∷ cs) p v e =
      turn-Ends p.offset cs (step realloc p.state buf p c) (step-Keeps realloc buf p c p.state v.0)
        v.1 e (run-Ends cs)

  -- Called on a block of which the bytes up to the parser's place have been read, `parse` stays within it: it
  -- has read all of it when it asks for more bytes, and is then ready to be called again; or it
  -- returns the offset behind a byte of it as that of the body; or it reports an error at a byte of it, or
  -- behind 8193 bytes. The offsets of the headers that it has added lie within their data.
  pub parse-Ends :
      (p : Parser) → IsReading p → p.offset ≤ length buf → Ends buf (parse realloc buf p)
  unfolding parse
  parse-Ends p v le = run-Ends (drop p.offset buf) p v (omega (arith, length-drop p.offset buf))
