-- ===== src/MimeTypes/Types.antt =====
-- mime/mime_types.cpp: the types that are found once a line has been read.
use gweb_plusplus.Base.{
  ℕ, ◌+◌, ◌<◌, Bool, true, false, ◌||◌, List, [], ◌∷◌, ◌++◌, Option, none, some, ◌==◌,
  if◌then◌else◌, size_mod, Bytes, length, length-append, All, All-map, arith, ◌≡◌, refl, ap, sym,
  ◌∙◌,
}
use gweb_plusplus.NameSearch.{lower}
use gweb_plusplus.Buffer.{Buffer}
use gweb_plusplus.Buffer.Appends.{IsSound, contents}
use gweb_plusplus.SortedList.Insert.{is_same, holds}
use gweb_plusplus.SortedList.Insert.Stored.{string_of-new, used-append}
use gweb_plusplus.SortedList.Insert.Adds.{grown-IsKept}
use gweb_plusplus.MimeTypes.{
  TypeList, Line, get_mime_type, in_space, put_extension, with_type, store_extension, read_line,
}
use gweb_plusplus.MimeTypes.Lines.{
  IsPrinted, IsExtension, extensions_text, store_all, typed, read_line-extensions_text,
}
use gweb_plusplus.MimeTypes.Lookup.{
  or_else, or_else-none, IsTyped, find_type-append, get_mime_type-find_type,
}
use gweb_plusplus.MimeTypes.Adds.{IsLoaded, found, HasType, Added, append-Grown, add-Added}

or_else-either :
    (o : Option Bytes) (a h : Bool) (type : Bytes)
    → or_else (or_else o (if a then some type else none)) (if h then some type else none)
      ≡ or_else o (if a || h then some type else none)
or_else-either none true h type = refl
or_else-either none false h type = refl
or_else-either (some t) true h type = refl
or_else-either (some t) false h type = refl

-- What is found once the type has been given to extensions that had none.
abbrev pub given : Option Bytes → List Bytes → Bytes → Bytes → Option Bytes
given before extensions type x =
    or_else before (if holds lower extensions x then some type else none)

module _ (realloc grows : ℕ → Bool) where
  abbrev put : Line → TypeList → Line
  put s l = record s { list = l; count = s.count + 1; state = in_space }

  put-Added :
      (s : Line) (e : Bytes)
      → ((n : ℕ) → realloc n ≡ true)
      → ((n : ℕ) → grows n ≡ true)
      → IsLoaded s.list
      → HasType s.list.buf s.offset s.type
      → s.list.buf.used + length e + s.list.buf.increment < size_mod
      → (l' : TypeList) × (put_extension realloc grows s e ≡ (put s l', true))
        × Added s.list e s.type s.offset l'
  unfolding put_extension
  put-Added s e allocs grow v h room =
      let (l', same, added) =
        add-Added realloc grows s.list s.offset e s.type allocs grow v h room in
      (l', ap (λ (r : TypeList × Bool). (put s r.0, r.1)) same, added)

  -- The extensions have been added, with the type.
  abbrev Stores : Line → List Bytes → Line × Bool → Type 0
  Stores s es r =
      (t : Line) × (r ≡ (t, true))
      × IsLoaded t.list
      × ((x : Bytes) → found t.list x ≡ given (found s.list x) es s.type x)

  next-Stores :
      (s : Line) (e : Bytes) (es : List Bytes) (l' : TypeList) (r : Line × Bool)
      → Added s.list e s.type s.offset l'
      → Stores (put s l') es r
      → Stores s (e ∷ es) r
  next-Stores s e es l' r added (t, all, w, finds) = (
    t,
    all,
    w,
    λ x.
        finds x
        ∙ ap (λ o. given o es s.type x) (added.finds x)
        ∙ or_else-either (found s.list x) (is_same lower x e) (holds lower es x) s.type,
  )

  -- The others behind the first.
  store_all-Stores :
      (es : List Bytes) (s : Line) (rest : Bytes)
      → ((n : ℕ) → realloc n ≡ true)
      → ((n : ℕ) → grows n ≡ true)
      → (s.count == 0) ≡ false
      → IsLoaded s.list
      → HasType s.list.buf s.offset s.type
      → s.list.buf.used + length (extensions_text es rest) + s.list.buf.increment < size_mod
      → Stores s es (store_all realloc grows es s)
  unfolding store_all store_extension
  store_all-Stores [] s rest allocs grow later v h room =
      (s, refl, v, λ x. or_else-none (found s.list x))
  store_all-Stores (e ∷ es) s rest allocs grow later v h room =
      let len = length-append e (extensions_text es rest) in
      let (l', same, added) = put-Added s e allocs grow v h (omega (arith, len, room)) in
      let counted : (s.count + 1 == 0) ≡ false = ground arith in
      rw later (
        rw same (
          next-Stores s e es l' _ added (
            store_all-Stores es (put s l') rest allocs grow counted added.loaded added.has
              (omega (arith, len, room, added.used, added.increment)))))

  -- The line once its type has been written.
  abbrev begun : TypeList → Buffer → Bytes → Line
  begun l b type = record (typed realloc grows l type) {
    list = record l { buf = b };
    offset = l.buf.used;
  }

  begun-IsLoaded :
      (l : TypeList) (b : Buffer) (type : Bytes)
      → IsLoaded l
      → IsSound b
      → contents b ≡ contents l.buf ++ type
      → IsLoaded (begun l b type).list × HasType b l.buf.used type
  begun-IsLoaded l b type (v, t) w c =
      let used = used-append l.buf b type v.sound w c in
      (
        (
          grown-IsKept lower l b type v w c,
          All-map (IsTyped l.buf) (IsTyped b) l.entries (λ x k. omega (arith, k, used)) t,
        ),
        (omega (arith, used), string_of-new {P = Unit} l.buf b type tt v.sound c),
      )

  begun-Stores :
      (l : TypeList) (b : Buffer) (type : Bytes) (es : List Bytes) (r : Line × Bool)
      → IsLoaded l
      → contents b ≡ contents l.buf ++ type
      → Stores (begun l b type) es r
      → Stores (typed realloc grows l type) es r
  begun-Stores l b type es r (v, t) c (s, all, w, finds) = (
    s,
    all,
    w,
    λ x.
        finds x
        ∙ ap (λ o. given o es type x)
            (find_type-append l.buf b type l.entries x v.sound c v.within t),
  )

  typed-Stores :
      (l : TypeList) (type e : Bytes) (es : List Bytes) (rest : Bytes)
      → ((n : ℕ) → realloc n ≡ true)
      → ((n : ℕ) → grows n ≡ true)
      → IsLoaded l
      → l.buf.used + length (type ++ extensions_text (e ∷ es) rest) + l.buf.increment < size_mod
      → Stores
          (typed realloc grows l type)
          (e ∷ es)
          (store_all realloc grows (e ∷ es) (typed realloc grows l type))
  unfolding store_all store_extension with_type
  typed-Stores l type e es rest allocs grow v room =
      let len = length-append type (extensions_text (e ∷ es) rest) in
      let more = length-append e (extensions_text es rest) in
      let (b, wrote, w, c, i) =
        append-Grown realloc grows l.buf type allocs v.0.sound (omega (arith, len, more, room)) in
      let used = used-append l.buf b type v.0.sound w c in
      let s = begun l b type in
      let (loaded, has) = begun-IsLoaded l b type v w c in
      let (l', same, added) =
        put-Added s e allocs grow loaded has (omega (arith, len, more, room, used, i)) in
      rw wrote (
        rw same (
          begun-Stores l b type (e ∷ es) _ v c (
            next-Stores s e es l' _ added (
              store_all-Stores es (put s l') rest allocs grow refl added.loaded added.has
                (omega (arith, len, more, room, used, i, added.used, added.increment))))))

  -- A line of a type, of bytes above the space but for `#`, and of one or more extensions, each of such bytes and
  -- behind a space, read into a sorted list whose strings and types lie within its buffer, where no allocation
  -- fails: the line is read, the list is such a list again, and for any extension the search gives the type that it gave
  -- before; or, where it gave none, the type of the line, if the extension is one of those of the line, in any case.
  -- The sum of the sizes must be below 2 ^ 64.
  pub read_line-given :
      (l : TypeList) (c : ℕ) (type e : Bytes) (es : List Bytes) (rest : Bytes)
      → ((n : ℕ) → realloc n ≡ true)
      → ((n : ℕ) → grows n ≡ true)
      → IsLoaded l
      → All IsPrinted (c ∷ type)
      → All IsExtension (e ∷ es)
      → l.buf.used + length ((c ∷ type) ++ extensions_text (e ∷ es) rest) + l.buf.increment
        < size_mod
      → (l' : TypeList) × (read_line realloc grows l ((c ∷ type) ++ extensions_text (e ∷ es) rest)
          ≡ (l', true))
        × IsLoaded l'
        × ((x : Bytes) → get_mime_type l' x ≡ given (get_mime_type l x) (e ∷ es) (c ∷ type) x)
  read_line-given l c type e es rest allocs grow v printed extensions room =
      let (t, all, w, finds) = typed-Stores l (c ∷ type) e es rest allocs grow v room in
      (
        t.list,
        read_line-extensions_text realloc grows l c type e es rest printed extensions
            ∙ ap (λ (r : Line × Bool). (r.0.list, r.1)) all,
        w,
        λ x.
            get_mime_type-find_type t.list x w.0
            ∙ finds x
            ∙ ap (λ o. given o (e ∷ es) (c ∷ type) x) (sym (get_mime_type-find_type l x v.0)),
      )
