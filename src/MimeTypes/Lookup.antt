-- ===== src/MimeTypes/Lookup.antt =====
-- mime/mime_types.cpp: the type of an extension, as a list of types grows.
use gweb_plusplus.Base.{
  ℕ, zero, suc, ◌+◌, ◌≤◌, Bool, true, false, ◌||◌, List, [], ◌∷◌, ◌++◌, map, Option, none, some,
  some-inj, if◌then◌else◌, Bytes, take, drop, length-take, length-drop, take-append, drop-append,
  get_elem?, All, All-get, Bool-cases, inl, inr, arith, ◌≡◌, refl, ap, sym, ◌∙◌,
}
use gweb_plusplus.NameSearch.{lower}
use gweb_plusplus.Buffer.{Buffer}
use gweb_plusplus.Buffer.Appends.{IsSound, contents}
use gweb_plusplus.SortedList.{Entry, string_of, strings_of, is_found}
use gweb_plusplus.SortedList.Order.{lex, lex_refl, lex_eq, lex_lt}
use gweb_plusplus.SortedList.Place.{Precedes, IsSorted, IsPlace, search-IsPlace, Ordering-cases}
use gweb_plusplus.SortedList.Insert.{is_same, holds, search-holds}
use gweb_plusplus.SortedList.Insert.Stored.{IsWithin, IsKept, string_of-append}
use gweb_plusplus.MimeTypes.{TypeList, type_in, type_at, get_mime_type}

abbrev pub TypeEntry : Type 0
TypeEntry = Entry (ℕ × ℕ)

abbrev pub entry_type : Buffer → TypeEntry → Bytes
entry_type b e = take e.payload.1 (drop e.payload.0 (contents b))

-- The type of the first entry whose extension is `x`, up to case: they are looked at one by one.
abbrev pub find_type : Buffer → List TypeEntry → Bytes → Option Bytes
find_type b [] x = none
find_type b (e ∷ es) x =
    if is_same lower x (string_of b e) then some (entry_type b e) else find_type b es x

-- Where the extension has no type before, its type is the new one.
abbrev pub or_else : Option Bytes → Option Bytes → Option Bytes
or_else none o = o
or_else (some t) o = some t

pub or_else-none : (o : Option Bytes) → o ≡ or_else o none
or_else-none none = refl
or_else-none (some t) = refl

or-false : (a b : Bool) → (a || b) ≡ false → b ≡ false
or-false true b e = cc
or-false false b e = e

abbrev strings : Buffer → List TypeEntry → List Bytes
strings b es = map (string_of b) es

pub same-fold : (x y : Bytes) → is_same lower x y ≡ true → map lower x ≡ map lower y
same-fold x y e = elim (Ordering-cases (lex (map lower x) (map lower y))) [
  | inl d ↦ let f : false ≡ true = rw d at e in cc
  | inr (inl d) ↦ lex_eq (map lower x) (map lower y) d
  | inr (inr d) ↦ let f : false ≡ true = rw d at e in cc
]

pub holds-fold :
    (xs : List Bytes) (x y : Bytes)
    → map lower x ≡ map lower y
    → holds lower xs x ≡ holds lower xs y
holds-fold [] x y e = refl
holds-fold (s ∷ xs) x y e =
    let same : is_same lower x s ≡ is_same lower y s = rw e refl in
    rw same (ap (λ b. is_same lower y s || b) (holds-fold xs x y e))

find_type-none :
    (b : Buffer) (es : List TypeEntry) (x : Bytes)
    → holds lower (strings b es) x ≡ false
    → find_type b es x ≡ none
find_type-none b [] x e = refl
find_type-none b (n ∷ es) x e = elim (Bool-cases (is_same lower x (string_of b n))) [
  | inl d ↦ let f : true ≡ false = rw d at e in cc
  | inr d ↦ rw d (find_type-none b es x (rw d at e))
]

pub find_type-some :
    (b : Buffer) (es : List TypeEntry) (x : Bytes) (o : Option Bytes)
    → holds lower (strings b es) x ≡ true
    → find_type b es x ≡ or_else (find_type b es x) o
find_type-some b [] x o e = cc
find_type-some b (n ∷ es) x o e = elim (Bool-cases (is_same lower x (string_of b n))) [
  | inl d ↦ rw d refl
  | inr d ↦ rw d (find_type-some b es x o (rw d at e))
]

-- The search finds what a look at the entries one by one would.
find_type-at :
    (l : TypeList) (es : List TypeEntry) (pos : ℕ) (x other : Bytes)
    → IsSorted lower (strings l.buf es)
    → get_elem? (strings l.buf es) pos ≡ some other
    → map lower x ≡ map lower other
    → type_in l (get_elem? es pos) ≡ find_type l.buf es x
find_type-at l [] pos x other v at e = cc
find_type-at l (n ∷ es) zero x other v at e =
    let f : map lower x ≡ map lower (string_of l.buf n) = e ∙ ap (map lower) (sym (some-inj at)) in
    rw f (rw (lex_refl (map lower (string_of l.buf n))) refl)
find_type-at l (n ∷ es) (suc pos) x other v at e =
    let before : lex (map lower (string_of l.buf n)) (map lower x) ≡ _ =
      ap (lex (map lower (string_of l.buf n))) e
      ∙ All-get (Precedes lower (string_of l.buf n)) (strings l.buf es) pos other v.0 at in
    rw (lex_lt (map lower (string_of l.buf n)) (map lower x) before)
      (find_type-at l es pos x other v.1 at e)

pub get_mime_type-find_type :
    (l : TypeList) (x : Bytes) → IsKept lower l → get_mime_type l x ≡ find_type l.buf l.entries x
unfolding get_mime_type
get_mime_type-find_type l x v =
    let (r, e, at) = search-IsPlace lower (strings_of l) x v.sorted in
    ap (type_at l) e
    ∙ found r at (sym (search-holds lower (strings_of l) x v.sorted) ∙ ap is_found e)
  where
    found :
        (r : ℕ × Bool)
        → IsPlace lower (strings_of l) x r
        → holds lower (strings_of l) x ≡ r.1
        → type_at l (some r) ≡ find_type l.buf l.entries x
    found (pos, true) (other, at, same_as) h =
        find_type-at l l.entries pos x other v.sorted at same_as
    found (pos, false) at h = sym (find_type-none l.buf l.entries x h)

abbrev pub if_same : Bytes → Bytes → Bytes → Option Bytes
if_same x extension type = if is_same lower x extension then some type else none

find_type-front :
    (b : Buffer) (n : TypeEntry) (es : List TypeEntry) (x : Bytes)
    → holds lower (strings b es) (string_of b n) ≡ false
    → find_type b (n ∷ es) x
      ≡ or_else (find_type b es x) (if_same x (string_of b n) (entry_type b n))
find_type-front b n es x new = elim (Bool-cases (is_same lower x (string_of b n))) [
  | inl d ↦
      let absent : find_type b es x ≡ none =
        find_type-none b es x
          (holds-fold (strings b es) x (string_of b n) (same-fold x (string_of b n) d) ∙ new) in
      rw d (rw absent refl)
  | inr d ↦ rw d (or_else-none (find_type b es x))
]

-- A new entry, wherever it goes.
pub find_type-insert :
    (b : Buffer) (pos : ℕ) (n : TypeEntry) (es : List TypeEntry) (x : Bytes)
    → holds lower (strings b es) (string_of b n) ≡ false
    → find_type b (take pos es ++ (n ∷ drop pos es)) x
      ≡ or_else (find_type b es x) (if_same x (string_of b n) (entry_type b n))
find_type-insert b zero n es x new = find_type-front b n es x new
find_type-insert b (suc pos) n [] x new = find_type-front b n [] x new
find_type-insert b (suc pos) n (e ∷ es) x new =
    let tail : holds lower (strings b es) (string_of b n) ≡ false =
      or-false (is_same lower (string_of b n) (string_of b e)) _ new in
    elim (Bool-cases (is_same lower x (string_of b e))) [
      | inl d ↦ rw d refl
      | inr d ↦ rw d (find_type-insert b pos n es x tail)
    ]

-- The types lie within the bytes in use.
abbrev pub IsTyped : Buffer → TypeEntry → Type 0
IsTyped b e = e.payload.0 + e.payload.1 ≤ b.used

pub slice-append :
    (b b' : Buffer) (bytes : Bytes) (at len : ℕ)
    → IsSound b
    → contents b' ≡ contents b ++ bytes
    → at + len ≤ b.used
    → take len (drop at (contents b')) ≡ take len (drop at (contents b))
slice-append b b' bytes at len v c w =
    let used = length-take b.used b.data' v.written in
    ap (λ x. take len (drop at x)) c
    ∙ ap (take len) (drop-append at (contents b) bytes (omega (arith, used, w)))
    ∙ take-append len (drop at (contents b)) bytes
        (omega (arith, used, w, length-drop at (contents b)))

pub find_type-append :
    (b b' : Buffer) (bytes : Bytes) (es : List TypeEntry) (x : Bytes)
    → IsSound b
    → contents b' ≡ contents b ++ bytes
    → All (IsWithin b) es
    → All (IsTyped b) es
    → find_type b' es x ≡ find_type b es x
find_type-append b b' bytes [] x v c w t = refl
find_type-append b b' bytes (e ∷ es) x v c w t = rw (string_of-append b b' bytes e v c w.0) (
    rw (slice-append b b' bytes e.payload.0 e.payload.1 v c t.0) (
      ap (λ o. if is_same lower x (string_of b e) then some (entry_type b e) else o)
        (find_type-append b b' bytes es x v c w.1 t.1)))
