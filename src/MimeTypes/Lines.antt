-- ===== src/MimeTypes/Lines.antt =====
-- mime/mime_types.cpp: what a line of a type and its extensions leads to.
use gweb_plusplus.Base.{
  ℕ, ◌<◌, Bool, true, false, List, [], ◌∷◌, ◌++◌, append-nil, append_assoc, ltb, ◌==◌, Bytes, All,
  ◌≢◌, arith, ◌≡◌, refl, ap, sym, ◌∙◌, Bool-cases, inl, inr,
}
use gweb_plusplus.Buffer.{Buffer, append}
use gweb_plusplus.MimeTypes.{
  put_extension, with_type, TypeList, LineState, start, in_type, in_space, in_extension, Line, Next,
  onward, leaves, fails, ends_line, store_extension, after_store, on_byte, finish, read_bytes,
  read_line,
}

-- A byte of a type or of an extension.
abbrev pub IsPrinted : ℕ → Type 0
IsPrinted c = (b' ' < c) × (c ≢ b'#')

-- Each extension behind a space, and the end of the line.
abbrev pub extensions_text : List Bytes → Bytes → Bytes
extensions_text [] rest = b'\n' ∷ rest
extensions_text (e ∷ es) rest = b' ' ∷ (e ++ extensions_text es rest)

-- The extension is of a byte or more.
abbrev pub IsExtension : Bytes → Type 0
IsExtension e = (e ≢ []) × All IsPrinted e

printed :
    (c : ℕ) → IsPrinted c → (ends_line c ≡ false) × ((c == b'#') ≡ false) × (ltb b' ' c ≡ true)
printed c v = (ground (arith, v.0), ground (arith, v.1), ground (arith, v.0))

module _ (realloc grows : ℕ → Bool) where
  abbrev while_stored : (Line → Line × Bool) → Line × Bool → Line × Bool
  while_stored next (s, true) = next s
  while_stored next (s, false) = (s, false)

  -- The extensions one by one, up to the first that cannot be stored.
  unfoldable pub store_all : List Bytes → Line → Line × Bool
  store_all [] s = (s, true)
  store_all (e ∷ es) s = while_stored (store_all es) (store_extension realloc grows s e)

  go : Bytes → Next → Line × Bool
  go bytes (onward t) = read_bytes realloc grows t bytes
  go bytes (leaves t) = finish realloc grows t t.state
  go bytes (fails t) = (t, false)

  read-byte :
      (s : Line) (c : ℕ) (bytes : Bytes)
      → ends_line c ≡ false
      → read_bytes realloc grows s (c ∷ bytes) ≡ go bytes (on_byte realloc grows s s.state c)
  unfolding read_bytes go
  read-byte s c bytes e = rw e (same (on_byte realloc grows s s.state c))
    where
      same :
          (n : Next)
          → elim n as (λ _. Line × Bool) [
            | onward t ↦ read_bytes realloc grows t bytes
            | leaves t ↦ finish realloc grows t t.state
            | fails t ↦ (t, false)
          ]
            ≡ go bytes n
      same (onward t) = refl
      same (leaves t) = refl
      same (fails t) = refl

  abbrev in_state : Line → LineState → Line
  in_state s state = record s { state = state }

  read-extension :
      (s : Line) (e tail rest : Bytes)
      → All IsPrinted tail
      → read_bytes realloc grows (in_state s (in_extension e)) (tail ++ rest)
        ≡ read_bytes realloc grows (in_state s (in_extension (e ++ tail))) rest
  unfolding on_byte go
  read-extension s e [] rest v =
      ap (λ x. read_bytes realloc grows (in_state s (in_extension x)) rest) (sym (append-nil e))
  read-extension s e (c ∷ tail) rest v =
      let (ends, comment, above) = printed c v.0 in
      read-byte (in_state s (in_extension e)) c (tail ++ rest) ends
      ∙ rw comment (
          rw above (
            read-extension s (e ++ (c ∷ [])) tail rest v.1
            ∙ ap (λ x. read_bytes realloc grows (in_state s (in_extension x)) rest)
                (append_assoc e (c ∷ []) tail)))

  -- What a line is left with behind an extension does not hang on the state before.
  with_type-state :
      (s : Line) (x : LineState) (e : Bytes) (r : Buffer × Bool)
      → (with_type realloc grows (in_state s x) e r ≡ with_type realloc grows s e r)
        × ((with_type realloc grows s e r).0.state ≡ in_space)
  unfolding with_type put_extension
  with_type-state s x e (b, false) = (refl, refl)
  with_type-state s x e (b, true) = (refl, refl)

  store-state :
      (s : Line) (x : LineState) (e : Bytes)
      → (store_extension realloc grows (in_state s x) e ≡ store_extension realloc grows s e)
        × ((store_extension realloc grows s e).0.state ≡ in_space)
  unfolding store_extension put_extension
  store-state s x e = elim (Bool-cases (s.count == 0)) [
    | inl d ↦ rw d (with_type-state s x e (append realloc s.list.buf s.type))
    | inr d ↦ rw d (refl, refl)
  ]

  store_all-nil : (r : Line × Bool) → r ≡ while_stored (store_all []) r
  unfolding store_all
  store_all-nil (t, true) = refl
  store_all-nil (t, false) = refl

  read-first :
      (s : Line) (e rest : Bytes)
      → IsExtension e
      → read_bytes realloc grows (in_state s in_space) (e ++ rest)
        ≡ read_bytes realloc grows (in_state s (in_extension e)) rest
  unfolding on_byte go
  read-first s [] rest v = absurd (v.0 refl)
  read-first s (c ∷ e) rest (nonempty, v) =
      let (ends, comment, above) = printed c v.0 in
      read-byte (in_state s in_space) c (e ++ rest) ends
      ∙ rw comment (rw above (read-extension s (c ∷ []) e rest v.1))

  store-next :
      (bytes : Bytes) (es : List Bytes) (r : Line × Bool)
      → r.0.state ≡ in_space
      → ((t : Line) → read_bytes realloc grows (in_state t in_space) bytes ≡ store_all es t)
      → go bytes (after_store realloc grows r) ≡ while_stored (store_all es) r
  unfolding go
  store-next bytes es (t, false) at next = refl
  store-next bytes es (t, true) at next =
      ap (λ x. read_bytes realloc grows (in_state t x) bytes) at ∙ next t

  read-end :
      (s : Line) (e rest : Bytes)
      → read_bytes realloc grows (in_state s (in_extension e)) (b'\n' ∷ rest)
        ≡ store_extension realloc grows (in_state s (in_extension e)) e
  unfolding read_bytes finish
  read-end s e rest = refl

  -- Behind the bytes of an extension.
  read-after :
      (s : Line) (e : Bytes) (es : List Bytes) (rest : Bytes)
      → All IsExtension es
      → read_bytes realloc grows (in_state s (in_extension e)) (extensions_text es rest)
        ≡ while_stored (store_all es) (store_extension realloc grows s e)
  unfolding on_byte store_all
  read-after s e [] rest v =
      read-end s e rest
      ∙ (store-state s (in_extension e) e).0
      ∙ store_all-nil (store_extension realloc grows s e)
  read-after s e (f ∷ es) rest v =
      read-byte (in_state s (in_extension e)) b' ' (f ++ extensions_text es rest) refl
      ∙ ap (λ r. go (f ++ extensions_text es rest) (after_store realloc grows r))
          (store-state s (in_extension e) e).0
      ∙ store-next (f ++ extensions_text es rest) (f ∷ es) (store_extension realloc grows s e)
          (store-state s in_space e).1
          (λ t. read-first t f (extensions_text es rest) v.0 ∙ read-after t f es rest v.1)

  read-type :
      (s : Line) (tail rest : Bytes)
      → All IsPrinted tail
      → read_bytes realloc grows (in_state s in_type) (tail ++ rest)
        ≡ read_bytes realloc grows (record s { type = s.type ++ tail; state = in_type }) rest
  unfolding on_byte go
  read-type s [] rest v =
      ap (λ x. read_bytes realloc grows (record s { type = x; state = in_type }) rest)
        (sym (append-nil s.type))
  read-type s (c ∷ tail) rest v =
      let (ends, comment, above) = printed c v.0 in
      read-byte (in_state s in_type) c (tail ++ rest) ends
      ∙ rw comment (
          rw above (
            read-type (record s { type = s.type ++ (c ∷ []) }) tail rest v.1
            ∙ ap (λ x. read_bytes realloc grows (record s { type = x; state = in_type }) rest)
                (append_assoc s.type (c ∷ []) tail)))

  -- The line of a type, at its first extension.
  abbrev pub typed : TypeList → Bytes → Line
  typed l type = record { list = l; type = type; offset = 0; count = 0; state = in_space }

  -- A line of a type, of bytes above the space but for `#`, and of one or more extensions, each of such bytes and
  -- behind a space, is read as its extensions are stored with the type, in order, up to the first that cannot be.
  pub read_line-extensions_text :
      (l : TypeList) (c : ℕ) (type e : Bytes) (es : List Bytes) (rest : Bytes)
      → All IsPrinted (c ∷ type)
      → All IsExtension (e ∷ es)
      → read_line realloc grows l ((c ∷ type) ++ extensions_text (e ∷ es) rest)
        ≡ (let r = store_all (e ∷ es) (typed l (c ∷ type)) in (r.0.list, r.1))
  unfolding read_line on_byte store_all go
  read_line-extensions_text l c type e es rest v w =
      let (ends, comment, above) = printed c v.0 in
      let begin : Line = record { list = l; type = []; offset = 0; count = 0; state = start } in
      let behind = extensions_text (e ∷ es) rest in
      let run : read_bytes realloc grows begin ((c ∷ type) ++ behind)
          ≡ store_all (e ∷ es) (typed l (c ∷ type)) =
        read-byte begin c (type ++ behind) ends
        ∙ rw comment (
            rw above (
              read-type (record begin { type = c ∷ [] }) type behind v.1
              ∙ read-byte (record begin { type = c ∷ type; state = in_type }) b' '
                  (e ++ extensions_text es rest) refl
              ∙ read-first (typed l (c ∷ type)) e (extensions_text es rest) w.0
              ∙ read-after (typed l (c ∷ type)) e es rest w.1)) in
      ap (λ (r : Line × Bool). (r.0.list, r.1)) run
