-- ===== src/Headers/Store/Adds.antt =====
-- http/http_headers.cpp: each of the three ways to add a value, where there is room.
use gweb_plusplus.Base.{
  ◌+◌, ◌≤◌, false, List, [], ◌∷◌, ◌++◌, ◌==◌, Bytes, length, map, All, All-append, All-map,
  length-append, append_assoc, arith, ◌≡◌, ◌≢◌, refl, ap, sym, ◌∙◌,
}
use gweb_plusplus.Headers.Table.{unknown_header}
use gweb_plusplus.Headers.Store.{
  Header, Store, slice, Key, known, other, key_header, key_data, key_namelen,
}
use gweb_plusplus.Headers.Store.View.{
  Field, resolve, view, field, IsInside, map-resolve-append, IsInside-append,
}
use gweb_plusplus.Headers.Store.Room.{IsSound}
use gweb_plusplus.Headers.Store.Entries.{slice-between, map-append}

-- A known header is an index of the table, and not `UNKNOWN_HEADER`.
abbrev pub IsKey : Key → Type 0
IsKey (known h) = h ≢ unknown_header
IsKey (other name) = Unit

abbrev pub stored : Key → Bytes → Bytes → Header
stored k d value = record {
  header = key_header k;
  name = elim k [ known h ↦ 0 | other name ↦ length d ];
  namelen = key_namelen k;
  value = length d + length (key_data k);
  valuelen = length value;
}

-- The value stands behind the name.
value-stored :
    (k : Key) (d value rest : Bytes)
    → slice (d ++ (key_data k ++ (value ++ rest))) (length d + length (key_data k)) (length value)
      ≡ value
value-stored k d value rest =
    ap (λ x. slice x (length d + length (key_data k)) (length value))
      (sym (append_assoc d (key_data k) (value ++ rest)))
    ∙ ap (λ n. slice ((d ++ key_data k) ++ (value ++ rest)) n (length value))
        (sym (length-append d (key_data k)))
    ∙ slice-between (d ++ key_data k) value rest

pub resolve-stored :
    (k : Key) (d value : Bytes)
    → IsKey k
    → resolve (d ++ (key_data k ++ (value ++ (0 ∷ [])))) (stored k d value) ≡ field k value
resolve-stored (known h) d value ne =
    let u : (h == unknown_header) ≡ false = ground arith in
    rw u (rw (value-stored (known h) d value (0 ∷ [])) refl)
resolve-stored (other name) d value ne = rw (value-stored (other name) d value (0 ∷ [])) (
    ap (λ n. record { header = unknown_header; name = n; value = value })
      (ap (λ x. slice (d ++ x) (length d) (length name))
          (append_assoc name (0 ∷ []) (value ++ (0 ∷ [])))
        ∙ slice-between d name (0 ∷ (value ++ (0 ∷ [])))))

pub IsInside-stored :
    (k : Key) (d value : Bytes)
    → IsKey k
    → IsInside (d ++ (key_data k ++ (value ++ (0 ∷ [])))) (stored k d value)
IsInside-stored k d value ne = record {
  value_le = omega (
    arith,
    length-append d (key_data k ++ (value ++ (0 ∷ []))),
    length-append (key_data k) (value ++ (0 ∷ [])),
    length-append value (0 ∷ []),
  );
  name_le = named k ne;
}
  where
    named :
        (j : Key)
        → IsKey j
        → key_header j ≡ unknown_header
        → (stored j d value).name + key_namelen j
          ≤ length (d ++ (key_data j ++ (value ++ (0 ∷ []))))
    named (known h) v u = absurd (v u)
    named (other name) v u = omega (
      arith,
      length-append d ((name ++ (0 ∷ [])) ++ (value ++ (0 ∷ []))),
      length-append (name ++ (0 ∷ [])) (value ++ (0 ∷ [])),
      length-append name (0 ∷ []),
    )

-- The headers `t` with `es` in place of the list, and the bytes `x` behind the data.
abbrev pub grown : Store → List Header → Bytes → Store
grown t es x = record t { headers = es; data' = t.data' ++ x }

pub grown-IsSound :
    (t : Store) (es : List Header) (x : Bytes)
    → IsSound t
    → All (IsInside (t.data' ++ x)) es
    → length es ≤ t.size
    → length t.data' + length x ≤ t.data_size
    → IsSound (grown t es x)
grown-IsSound t es x v inside slots room = record {
  inside = inside;
  slots = slots;
  fits = omega (arith, length-append t.data' x);
  small = v.small;
}

-- An entry that stands between others, whose bytes are the data's or `x`.
module _ (t : Store) (l : List Header) (e : Header) (r : List Header) (x : Bytes) where
  pub IsInside-grown :
      All (IsInside t.data') l
      → All (IsInside t.data') r
      → IsInside (t.data' ++ x) e
      → All (IsInside (t.data' ++ x)) (l ++ (e ∷ r))
  IsInside-grown il ir ie =
      let keep = λ (y : Header) (h : IsInside t.data' y). IsInside-append t.data' x y h in
      All-append (IsInside (t.data' ++ x)) l (e ∷ r) (All-map _ _ l keep il)
        (ie, All-map _ _ r keep ir)

  pub view-grown :
      (f : Field)
      → All (IsInside t.data') l
      → All (IsInside t.data') r
      → resolve (t.data' ++ x) e ≡ f
      → view (grown t (l ++ (e ∷ r)) x) ≡ map (resolve t.data') l ++ (f ∷ map (resolve t.data') r)
  view-grown f il ir d =
      map-append (t.data' ++ x) l (e ∷ r)
      ∙ rw (map-resolve-append t.data' x l il) (
          rw (map-resolve-append t.data' x r ir)
            (ap (λ y. map (resolve t.data') l ++ (y ∷ map (resolve t.data') r)) d))
