-- ===== src/SortedList/Insert/Adds.antt =====
-- util/string_list.cpp, util/pathlist.cpp and mime/mime_types.cpp: `add`, for the searches that follow.
use gweb_plusplus.Base.{
  ℕ, ◌+◌, ◌<◌, Bool, true, false, ◌||◌, ◌∷◌, ◌++◌, map, some, ◌==◌, size_mod, Bytes, length, take,
  drop, All-append, All-map, Bool-cases, inl, inr, arith, ◌≡◌, refl, ap, sym, ◌∙◌, subst,
}
use gweb_plusplus.Buffer.{Buffer, append}
use gweb_plusplus.Buffer.Appends.{IsSound, IsAppended, contents, append-IsAppended}
use gweb_plusplus.SortedList.{
  Entry, SortedList, string_of, strings_of, exists, insert, insert_string, add_at, add,
}
use gweb_plusplus.SortedList.Place.{IsSorted, IsPlace, search-IsPlace}
use gweb_plusplus.SortedList.Insert.{
  is_same, holds, All-take, All-drop, insert-IsSorted, holds-insert, holds-respects, search-holds,
}
use gweb_plusplus.SortedList.Insert.Stored.{
  map-take, map-drop, map-append, IsWithin, IsKept, strings-append, string_of-new, used-append,
}

module _ {P : Type 0} (fold : ℕ → ℕ) where
  exists-holds :
      (l : SortedList P) (other : Bytes)
      → IsKept fold l
      → exists fold l other ≡ holds fold (strings_of l) other
  unfolding exists
  exists-holds l other v = search-holds fold (strings_of l) other v.sorted

  -- The list keeps its shape, and holds the string besides, or, on a failure, what it held.
  abbrev pub Adds : SortedList P → Bytes → SortedList P × Bool → Type 0
  Adds l string (l', true) =
      IsKept fold l'
      × ((other : Bytes)
          → exists fold l' other ≡ (is_same fold other string || exists fold l other))
  Adds l string (l', false) =
      IsKept fold l' × ((other : Bytes) → exists fold l' other ≡ exists fold l other)

  -- The list over the buffer that has grown.
  pub grown-IsKept :
      (l : SortedList P) (b : Buffer) (bytes : Bytes)
      → IsKept fold l
      → IsSound b
      → contents b ≡ contents l.buf ++ bytes
      → IsKept fold (record l { buf = b })
  grown-IsKept l b bytes v w c = record {
    sound = w;
    within =
        All-map (IsWithin l.buf) (IsWithin b) l.entries
          (λ e h. omega (arith, h, used-append l.buf b bytes v.sound w c)) v.within;
    sorted =
        subst (IsSorted fold) (sym (strings-append l.buf b bytes l.entries v.sound c v.within))
          v.sorted;
  }

  strings-insert :
      (l : SortedList P) (b : Buffer) (pos : ℕ) (string : Bytes) (p : P)
      → IsKept fold l
      → contents b ≡ contents l.buf ++ string
      → map (string_of b) (
          take pos l.entries
          ++ (record { offset = l.buf.used; len = length string; payload = p }
              ∷ drop pos l.entries))
        ≡ take pos (strings_of l) ++ (string ∷ drop pos (strings_of l))
  strings-insert l b pos string p v c =
      let e : Entry P = record { offset = l.buf.used; len = length string; payload = p } in
      let same = strings-append l.buf b string l.entries v.sound c v.within in
      map-append (string_of b) (take pos l.entries) (e ∷ drop pos l.entries)
      ∙ rw (string_of-new l.buf b string p v.sound c) (
          rw (map-take (string_of b) pos l.entries) (
            rw (map-drop (string_of b) pos l.entries)
              (ap (λ xs. take pos xs ++ (string ∷ drop pos xs)) same)))

  -- A list with the entry at its place.
  pub inserted-Adds :
      (l : SortedList P) (b : Buffer) (pos size : ℕ) (string : Bytes) (p : P)
      → IsKept fold l
      → IsSound b
      → contents b ≡ contents l.buf ++ string
      → IsPlace fold (strings_of l) string (pos, false)
      → let e : Entry P = record { offset = l.buf.used; len = length string; payload = p } in
        Adds l string (
          record { buf = b; entries = take pos l.entries ++ (e ∷ drop pos l.entries); size = size },
          true,
        )
  inserted-Adds l b pos size string p v w c (le, before, after) =
      let e : Entry P = record { offset = l.buf.used; len = length string; payload = p } in
      let l' : SortedList P = record {
        buf = b;
        entries = take pos l.entries ++ (e ∷ drop pos l.entries);
        size = size;
      } in
      let strings : strings_of l' ≡ take pos (strings_of l) ++ (string ∷ drop pos (strings_of l)) =
        strings-insert l b pos string p v c in
      let used = used-append l.buf b string v.sound w c in
      let old =
        All-map (IsWithin l.buf) (IsWithin b) l.entries (λ x h. omega (arith, h, used)) v.within in
      let kept : IsKept fold l' = record {
        sound = w;
        within =
            All-append (IsWithin b) (take pos l.entries) (e ∷ drop pos l.entries)
              (All-take (IsWithin b) pos l.entries old)
              (omega (arith, used), All-drop (IsWithin b) pos l.entries old);
        sorted =
            subst (IsSorted fold) (sym strings)
              (insert-IsSorted fold pos (strings_of l) string v.sorted before after);
      } in
      (
        kept,
        λ other.
            exists-holds l' other kept
            ∙ ap (λ xs. holds fold xs other) strings
            ∙ holds-insert fold pos (strings_of l) string other
            ∙ ap (λ x. is_same fold other string || x) (sym (exists-holds l other v)),
      )

  -- A list that is left as it is, but for its buffer.
  grown-Adds :
      (l : SortedList P) (b : Buffer) (bytes string : Bytes)
      → IsKept fold l
      → IsSound b
      → contents b ≡ contents l.buf ++ bytes
      → Adds l string (record l { buf = b }, false)
  grown-Adds l b bytes string v w c =
      let kept = grown-IsKept l b bytes v w c in
      (
        kept,
        λ other.
            exists-holds (record l { buf = b }) other kept
            ∙ ap (λ xs. holds fold xs other)
                (strings-append l.buf b bytes l.entries v.sound c v.within)
            ∙ sym (exists-holds l other v),
      )

  module _ (realloc grows : ℕ → Bool) (alloc : ℕ) where
    insert_string-Adds :
        (l : SortedList P) (pos : ℕ) (string : Bytes) (p : P) (r : Buffer × Bool)
        → IsKept fold l
        → IsAppended realloc l.buf string r
        → IsPlace fold (strings_of l) string (pos, false)
        → Adds l string (insert_string fold realloc grows alloc l pos string p r)
    unfolding insert_string insert
    insert_string-Adds l pos string p (b, false) v a at =
        subst (λ x. Adds l string (record l { buf = x }, false)) (sym a.0) (v, λ other. refl)
    insert_string-Adds l pos string p (b, true) v (w, c, room) at =
        elim (Bool-cases (length l.entries == l.size)) [
          | inr d ↦ rw d (inserted-Adds l b pos l.size string p v w c at)
          | inl d ↦ elim (Bool-cases (grows (l.size + alloc))) [
            | inl g ↦ rw d (rw g (inserted-Adds l b pos (l.size + alloc) string p v w c at))
            | inr g ↦ rw d (rw g (grown-Adds l b string string v w c))
          ]
        ]

    -- `add` on a sorted list leaves it sorted, with its strings in its buffer. Where it succeeds, the strings that
    -- a search finds are those that it found before, and the string itself, up to `fold`; where an allocation has
    -- failed, they are those that it found before. The sum of the sizes must be below 2 ^ 64.
    pub add-Adds :
        (l : SortedList P) (string : Bytes) (p : P)
        → IsKept fold l
        → l.buf.used + length string + l.buf.increment < size_mod
        → Adds l string (add fold realloc grows alloc l string p)
    unfolding add add_at
    add-Adds l string p v room =
        let ((pos, b), e, at) = search-IsPlace fold (strings_of l) string v.sorted in
        subst (λ o. Adds l string (add_at fold realloc grows alloc l string p o)) (sym e)
          (at_place b pos at)
      where
        at_place :
            (b : Bool) (pos : ℕ)
            → IsPlace fold (strings_of l) string (pos, b)
            → Adds l string (add_at fold realloc grows alloc l string p (some (pos, b)))
        at_place true pos at = (
          v,
          λ other.
              exists-holds l other v
              ∙ holds-respects fold (strings_of l) string other pos at
              ∙ ap (λ x. is_same fold other string || x) (sym (exists-holds l other v)),
        )
        at_place false pos at =
            insert_string-Adds l pos string p (append realloc l.buf string) v
              (append-IsAppended realloc l.buf string v.sound room) at
