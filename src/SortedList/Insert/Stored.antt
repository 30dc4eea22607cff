-- ===== src/SortedList/Insert/Stored.antt =====
-- The strings of a list in its buffer, as the buffer grows.
use gweb_plusplus.Base.{
  ℕ, zero, suc, ◌+◌, ◌≤◌, List, [], ◌∷◌, ◌++◌, map, Bytes, length, take, drop, length-take,
  length-drop, length-append, take-append, take-length, drop-append, drop-length, All, arith, ◌≡◌,
  refl, ap, sym, ◌∙◌,
}
use gweb_plusplus.Buffer.{Buffer}
use gweb_plusplus.Buffer.Appends.{IsSound, contents}
use gweb_plusplus.SortedList.{Entry, SortedList, string_of, strings_of}
use gweb_plusplus.SortedList.Place.{IsSorted}

pub map-take :
    {A B : Type 0} (f : A → B) (n : ℕ) (xs : List A) → map f (take n xs) ≡ take n (map f xs)
map-take f zero xs = refl
map-take f (suc n) [] = refl
map-take f (suc n) (x ∷ xs) = ap (◌∷◌ (f x)) (map-take f n xs)

pub map-drop :
    {A B : Type 0} (f : A → B) (n : ℕ) (xs : List A) → map f (drop n xs) ≡ drop n (map f xs)
map-drop f zero xs = refl
map-drop f (suc n) [] = refl
map-drop f (suc n) (x ∷ xs) = map-drop f n xs

pub map-append :
    {A B : Type 0} (f : A → B) (xs ys : List A) → map f (xs ++ ys) ≡ map f xs ++ map f ys
map-append f [] ys = refl
map-append f (x ∷ xs) ys = ap (◌∷◌ (f x)) (map-append f xs ys)

pub used-append :
    (b b' : Buffer) (bytes : Bytes)
    → IsSound b
    → IsSound b'
    → contents b' ≡ contents b ++ bytes
    → b'.used ≡ b.used + length bytes
used-append b b' bytes v w c = omega (
  arith,
  length-take b.used b.data' v.written,
  length-take b'.used b'.data' w.written,
  ap length c,
  length-append (contents b) bytes,
)

module _ {P : Type 0} where
  -- The string lies within the bytes in use.
  abbrev pub IsWithin : Buffer → Entry P → Type 0
  IsWithin b e = e.offset + e.len ≤ b.used

  -- The strings lie in the buffer, and are sorted.
  pub record IsKept (fold : ℕ → ℕ) (l : SortedList P) : Type 0 where
    pub sound : IsSound l.buf
    pub within : All (IsWithin l.buf) l.entries
    pub sorted : IsSorted fold (strings_of l)

  pub string_of-append :
      (b b' : Buffer) (bytes : Bytes) (e : Entry P)
      → IsSound b
      → contents b' ≡ contents b ++ bytes
      → IsWithin b e
      → string_of b' e ≡ string_of b e
  string_of-append b b' bytes e v c w =
      let len = length-take b.used b.data' v.written in
      ap (λ x. take e.len (drop e.offset x)) c
      ∙ ap (take e.len) (drop-append e.offset (contents b) bytes (omega (arith, len, w)))
      ∙ take-append e.len (drop e.offset (contents b)) bytes
          (omega (arith, len, w, length-drop e.offset (contents b)))

  pub strings-append :
      (b b' : Buffer) (bytes : Bytes) (entries : List (Entry P))
      → IsSound b
      → contents b' ≡ contents b ++ bytes
      → All (IsWithin b) entries
      → map (string_of b') entries ≡ map (string_of b) entries
  strings-append b b' bytes [] v c w = refl
  strings-append b b' bytes (e ∷ entries) v c w =
      rw (string_of-append b b' bytes e v c w.0)
        (ap (◌∷◌ (string_of b e)) (strings-append b b' bytes entries v c w.1))

  pub string_of-new :
      (b b' : Buffer) (bytes : Bytes) (p : P)
      → IsSound b
      → contents b' ≡ contents b ++ bytes
      → string_of b' (record { offset = b.used; len = length bytes; payload = p }) ≡ bytes
  string_of-new b b' bytes p v c =
      let len = length-take b.used b.data' v.written in
      ap (λ x. take (length bytes) (drop b.used x)) c
      ∙ ap (λ n. take (length bytes) (drop n (contents b ++ bytes))) (sym len)
      ∙ ap (take (length bytes)) (
          drop-append (length (contents b)) (contents b) bytes (omega arith)
          ∙ ap (λ x. x ++ bytes) (drop-length (contents b)))
      ∙ take-length bytes
