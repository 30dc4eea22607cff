-- ===== src/MimeTypes/Adds.antt =====
-- mime/mime_types.cpp: an extension that is added to the list of types.
use gweb_plusplus.Base.{
  ℕ, ◌+◌, ◌≤◌, ◌<◌, Bool, true, false, List, ◌∷◌, ◌++◌, map, Option, some, ◌==◌, size_mod, Bytes,
  length, take, drop, All, All-append, All-map, Bool-cases, inl, inr, arith, ◌≡◌, refl, ap, sym,
  ◌∙◌, subst,
}
use gweb_plusplus.NameSearch.{lower}
use gweb_plusplus.Buffer.{Buffer, append, allocate}
use gweb_plusplus.Buffer.Appends.{IsSound, IsAppended, contents, append-IsAppended}
use gweb_plusplus.SortedList.{is_found, string_of, strings_of, add, add_at, insert_string, insert}
use gweb_plusplus.SortedList.Place.{IsPlace, search-IsPlace}
use gweb_plusplus.SortedList.Insert.{is_same, holds, search-holds, All-take, All-drop}
use gweb_plusplus.SortedList.Insert.Stored.{IsKept, strings-append, string_of-new, used-append}
use gweb_plusplus.SortedList.Insert.Adds.{inserted-Adds}
use gweb_plusplus.MimeTypes.{TypeList}
use gweb_plusplus.MimeTypes.Lookup.{
  TypeEntry, entry_type, find_type, or_else, or_else-none, if_same, IsTyped, find_type-some,
  find_type-insert, find_type-append, slice-append, same-fold, holds-fold,
}

-- The list is sorted, and its strings and its types lie within its buffer.
abbrev pub IsLoaded : TypeList → Type 0
IsLoaded l = IsKept lower l × All (IsTyped l.buf) l.entries

abbrev pub found : TypeList → Bytes → Option Bytes
found l x = find_type l.buf l.entries x

-- Where the extension is held, another type for it is passed over.
found-again :
    (b : Buffer) (es : List TypeEntry) (e type x : Bytes)
    → holds lower (map (string_of b) es) e ≡ true
    → find_type b es x ≡ or_else (find_type b es x) (if_same x e type)
found-again b es e type x h = elim (Bool-cases (is_same lower x e)) [
  | inl d ↦ find_type-some b es x _ (holds-fold (map (string_of b) es) x e (same-fold x e d) ∙ h)
  | inr d ↦ rw d (or_else-none (find_type b es x))
]

-- What an append that succeeds leaves.
abbrev Grown : Buffer → Bytes → Buffer × Bool → Type 0
Grown b s r =
    (b' : Buffer) × (r ≡ (b', true))
    × IsSound b'
    × (contents b' ≡ contents b ++ s)
    × (b'.increment ≡ b.increment)

-- The slice of the buffer is the type.
abbrev pub HasType : Buffer → ℕ → Bytes → Type 0
HasType b at type = (at + length type ≤ b.used) × (take (length type) (drop at (contents b)) ≡ type)

HasType-append :
    (b b' : Buffer) (s : Bytes) (at : ℕ) (type : Bytes)
    → IsSound b
    → IsSound b'
    → contents b' ≡ contents b ++ s
    → HasType b at type
    → HasType b' at type
HasType-append b b' s at type v w c h = (
  omega (arith, h.0, used-append b b' s v w c),
  slice-append b b' s at (length type) v c h.0 ∙ h.1,
)

-- What `add` leaves of a list, of an extension, its type and where that stands.
pub record Added (l : TypeList) (e type : Bytes) (at : ℕ) (l' : TypeList) : Type 0 where
  pub loaded : IsLoaded l'
  pub has : HasType l'.buf at type
  pub used : l'.buf.used ≤ l.buf.used + length e
  pub increment : l'.buf.increment ≡ l.buf.increment
  pub finds : (x : Bytes) → found l' x ≡ or_else (found l x) (if_same x e type)

inserted-Added :
    (l : TypeList) (b : Buffer) (pos size at : ℕ) (e type : Bytes)
    → IsLoaded l
    → IsSound b
    → contents b ≡ contents l.buf ++ e
    → b.increment ≡ l.buf.increment
    → HasType l.buf at type
    → IsPlace lower (strings_of l) e (pos, false)
    → holds lower (strings_of l) e ≡ false
    → let n : TypeEntry = record {
      offset = l.buf.used;
      len = length e;
      payload = (at, length type);
    } in
      Added l e type at
        (record { buf = b; entries = take pos l.entries ++ (n ∷ drop pos l.entries); size = size })
inserted-Added l b pos size at e type (v, t) w c i h p new =
    let n : TypeEntry = record {
      offset = l.buf.used;
      len = length e;
      payload = (at, length type);
    } in
    let used = used-append l.buf b e v.sound w c in
    let here : string_of b n ≡ e =
      string_of-new {P = ℕ × ℕ} l.buf b e (at, length type) v.sound c in
    let same = strings-append l.buf b e l.entries v.sound c v.within in
    let old : All (IsTyped b) l.entries =
      All-map (IsTyped l.buf) (IsTyped b) l.entries (λ x k. omega (arith, k, used)) t in
    let typed_all : All (IsTyped b) (take pos l.entries ++ (n ∷ drop pos l.entries)) =
      All-append (IsTyped b) (take pos l.entries) (n ∷ drop pos l.entries)
        (All-take (IsTyped b) pos l.entries old)
        (omega (arith, h.0, used), All-drop (IsTyped b) pos l.entries old) in
    record {
      loaded = ((inserted-Adds lower l b pos size e (at, length type) v w c p).0, typed_all);
      has = HasType-append l.buf b e at type v.sound w c h;
      used = omega (arith, used);
      increment = i;
      finds = λ x.
          find_type-insert b pos n l.entries x (
            ap (holds lower (map (string_of b) l.entries)) here
            ∙ ap (λ ss. holds lower ss e) same
            ∙ new)
          ∙ ap (λ y. or_else (find_type b l.entries x) (if_same x y (entry_type b n))) here
          ∙ ap (λ y. or_else (find_type b l.entries x) (if_same x e y))
              (HasType-append l.buf b e at type v.sound w c h).1
          ∙ ap (λ o. or_else o (if_same x e type))
              (find_type-append l.buf b e l.entries x v.sound c v.within t);
    }

module _ (realloc grows : ℕ → Bool) where
  append-increment : (b : Buffer) (s : Bytes) → (append realloc b s).0.increment ≡ b.increment
  unfolding append allocate
  append-increment b s = ground arith

  pub append-Grown :
      (b : Buffer) (s : Bytes)
      → ((n : ℕ) → realloc n ≡ true)
      → IsSound b
      → b.used + length s + b.increment < size_mod
      → Grown b s (append realloc b s)
  append-Grown b s allocs v room =
      grown (append realloc b s) (append-IsAppended realloc b s v room) (append-increment b s)
    where
      grown :
          (r : Buffer × Bool) → IsAppended realloc b s r → r.0.increment ≡ b.increment → Grown b s r
      grown (b', true) a i = (b', refl, a.0, a.1, i)
      grown (b', false) (same, (full, m, le, e)) i = let f : true ≡ false = sym (allocs m) ∙ e in cc

  pub add-Added :
      (l : TypeList) (at : ℕ) (e type : Bytes)
      → ((n : ℕ) → realloc n ≡ true)
      → ((n : ℕ) → grows n ≡ true)
      → IsLoaded l
      → HasType l.buf at type
      → l.buf.used + length e + l.buf.increment < size_mod
      → (l' : TypeList) × (add lower realloc grows 256 l e (at, length type) ≡ (l', true))
        × Added l e type at l'
  unfolding add add_at insert_string insert
  add-Added l at e type allocs grow (v, t) h room =
      let ((pos, b), s, place) = search-IsPlace lower (strings_of l) e v.sorted in
      let is_held = sym (search-holds lower (strings_of l) e v.sorted) ∙ ap is_found s in
      subst
        (λ o.
          (l' : TypeList) × (add_at lower realloc grows 256 l e (at, length type) o ≡ (l', true))
          × Added l e type at l')
        (sym s) (at_place b pos place is_held)
    where
      at_place :
          (b : Bool) (pos : ℕ)
          → IsPlace lower (strings_of l) e (pos, b)
          → holds lower (strings_of l) e ≡ b
          → (l' : TypeList) × (add_at lower realloc grows 256 l e (at, length type) (some (pos, b))
              ≡ (l', true))
            × Added l e type at l'
      at_place true pos place held = (
        l,
        refl,
        record {
          loaded = (v, t);
          has = h;
          used = omega arith;
          increment = refl;
          finds = λ x. found-again l.buf l.entries e type x held;
        },
      )
      at_place false pos place held =
          let (b, same, w, c, i) = append-Grown l.buf e allocs v.sound room in
          let result =
            λ (size : ℕ). inserted-Added l b pos size at e type (v, t) w c i h place held in
          rw same (elim (Bool-cases (length l.entries == l.size)) [
            | inr d ↦ rw d (_, refl, result l.size)
            | inl d ↦ rw d (rw (grow (l.size + 256)) (_, refl, result (l.size + 256)))
          ])
