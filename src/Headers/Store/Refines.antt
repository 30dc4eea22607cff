-- ===== src/Headers/Store/Refines.antt =====
-- http/http_headers.cpp: the store implements the operations on fields.
use gweb_plusplus.Base.{
  Bool-cases, inl, inr, ℕ, ◌+◌, ◌≤◌, Bool, true, false, List, [], ◌∷◌, ◌++◌, ◌==◌, Bytes, length,
  map, All, All-left, All-right, length-append, append_assoc, arith, ◌≡◌, refl, ap, sym, ◌∙◌, subst,
}
use gweb_plusplus.Headers.Table.{unknown_header}
use gweb_plusplus.Headers.Store.{Header, Store, slice, Key, key_data}
use gweb_plusplus.Headers.Store.Change.{
  insert_at, change_at, new_entry, replace_entry, extend_entry,
}
use gweb_plusplus.Headers.Store.View.{resolve, view, field, joined, put, IsInside, slice-append}
use gweb_plusplus.Headers.Store.Walk.{
  length-slice, Passes, Stops, found_in, past_in, found_in-is_for, Passes-resolve, Stops-resolve,
}
use gweb_plusplus.Headers.Store.Fields.{put-found, put-absent}
use gweb_plusplus.Headers.Store.Room.{Gives, IsSound}
use gweb_plusplus.Headers.Store.Entries.{change_at-of, insert_at-append, slice-between, map-append}
use gweb_plusplus.Headers.Store.Adds.{
  IsKey, stored, resolve-stored, IsInside-stored, grown, grown-IsSound, IsInside-grown, view-grown,
}

-- The list of `t`, as the search for `k` takes it apart.
module _ (realloc : ℕ → Bool) (t : Store) (k : Key) (l : List Header) where
  pub new_entry-Gives :
      (r : List Header) (value : Bytes) (b : Bool)
      → IsSound t
      → IsKey k
      → t.headers ≡ l ++ r
      → All (Passes (found_in t.data' k) (past_in k)) l
      → Stops (found_in t.data' k) (past_in k) r
      → length t.headers + 1 ≤ t.size
      → length t.data' + (length (key_data k) + length value + 1) ≤ t.data_size
      → Gives t (put k value b (view t)) (new_entry realloc k (length l) value (t, true))
  unfolding new_entry
  new_entry-Gives r value b v ne es p st slots room =
      let d = t.data' in
      let x = key_data k ++ (value ++ (0 ∷ [])) in
      let e = stored k d value in
      let inside : All (IsInside d) (l ++ r) = subst (All (IsInside d)) es v.inside in
      let il = All-left (IsInside d) l r inside in
      let ir = All-right (IsInside d) l r inside in
      let hs : insert_at t.headers (length l) e ≡ l ++ (e ∷ r) =
        ap (λ h. insert_at h (length l) e) es ∙ insert_at-append l r e in
      let old : view t ≡ map (resolve d) l ++ map (resolve d) r =
        ap (map (resolve d)) es ∙ map-append d l r in
      rw hs (
        grown-IsSound t (l ++ (e ∷ r)) x v
            (IsInside-grown t l e r x il ir (IsInside-stored k d value ne))
            (omega (arith, length-append l (e ∷ r), length-append l r, ap length es))
            (omega (
              arith,
              length-append (key_data k) (value ++ (0 ∷ [])),
              length-append value (0 ∷ []),
            )),
        view-grown t l e r x (field k value) il ir (resolve-stored k d value ne)
            ∙ sym (
                ap (put k value b) old
                ∙ put-absent k value b (map (resolve d) l) (map (resolve d) r)
                    (Passes-resolve k d l il p) (Stops-resolve k d r ir st)),
      )

  -- An entry `e` that is found, and `e'` in its place.
  module _ (e e' : Header) (r : List Header) (x value : Bytes) (b : Bool) where
    pub changed-Gives :
        IsSound t
        → t.headers ≡ l ++ (e ∷ r)
        → All (Passes (found_in t.data' k) (past_in k)) l
        → found_in t.data' k e ≡ true
        → length t.data' + length x ≤ t.data_size
        → IsInside (t.data' ++ x) e'
        → resolve (t.data' ++ x) e'
          ≡ record (resolve t.data' e) { value = joined b (slice t.data' e.value e.valuelen) value }
        → Gives t (put k value b (view t)) (grown t (l ++ (e' ∷ r)) x, true)
    changed-Gives v es p f room ie re =
        let d = t.data' in
        let inside : All (IsInside d) (l ++ (e ∷ r)) = subst (All (IsInside d)) es v.inside in
        let il = All-left (IsInside d) l (e ∷ r) inside in
        let ir = All-right (IsInside d) l (e ∷ r) inside in
        let old : view t ≡ map (resolve d) l ++ (resolve d e ∷ map (resolve d) r) =
          ap (map (resolve d)) es ∙ map-append d l (e ∷ r) in
        (
          grown-IsSound t (l ++ (e' ∷ r)) x v (IsInside-grown t l e' r x il ir.1 ie)
              (omega
                (arith, length-append l (e' ∷ r), length-append l (e ∷ r), ap length es, v.slots))
              room,
          view-grown t l e' r x _ il ir.1 re
              ∙ sym (
                  ap (put k value b) old
                  ∙ put-found k value b (map (resolve d) l) (resolve d e) (map (resolve d) r)
                      (Passes-resolve k d l il p) (sym (found_in-is_for k d e ir.0) ∙ f)),
        )

-- An entry whose value is moved behind the data.
module _ (d w rest : Bytes) (e : Header) (n : ℕ) (len : n ≡ length w) where
  abbrev moved : Header
  moved = record e { value = length d; valuelen = n }

  resolve-moved :
      IsInside d e → resolve (d ++ (w ++ rest)) moved ≡ record (resolve d e) { value = w }
  resolve-moved v =
      let val : slice (d ++ (w ++ rest)) (length d) n ≡ w =
        ap (slice (d ++ (w ++ rest)) (length d)) len ∙ slice-between d w rest in
      rw val (elim (Bool-cases (e.header == unknown_header)) [
        | inl u ↦
            rw u (rw (slice-append d (w ++ rest) e.name e.namelen (v.name_le (ground arith))) refl)
        | inr u ↦ rw u refl
      ])

  IsInside-moved : IsInside d e → IsInside (d ++ (w ++ rest)) moved
  IsInside-moved v = record {
    value_le = omega (arith, len, length-append d (w ++ rest), length-append w rest);
    name_le = λ u. omega (arith, v.name_le u, length-append d (w ++ rest));
  }

-- The two changes of an entry that is found.
module _ (realloc : ℕ → Bool) (t : Store) (k : Key) (l : List Header) (e : Header)
    (r : List Header) where
  pub replace_entry-Gives :
      (value : Bytes)
      → IsSound t
      → t.headers ≡ l ++ (e ∷ r)
      → All (Passes (found_in t.data' k) (past_in k)) l
      → found_in t.data' k e ≡ true
      → length t.data' + (length value + 1) ≤ t.data_size
      → Gives t (put k value true (view t)) (replace_entry realloc (length l) value (t, true))
  unfolding replace_entry
  replace_entry-Gives value v es p f room =
      let inside =
        All-right (IsInside t.data') l (e ∷ r) (subst (All (IsInside t.data')) es v.inside) in
      let to = λ (y : Header). record y { value = length t.data'; valuelen = length value } in
      let hs : change_at t.headers (length l) to
          ≡ l ++ (moved t.data' value (0 ∷ []) e (length value) refl ∷ r) =
        change_at-of t.headers l e r to es in
      rw hs (
        changed-Gives realloc t k l e (moved t.data' value (0 ∷ []) e (length value) refl) r
          (value ++ (0 ∷ [])) value true v es p f (omega (arith, length-append value (0 ∷ [])))
          (IsInside-moved t.data' value (0 ∷ []) e (length value) refl inside.0)
          (resolve-moved t.data' value (0 ∷ []) e (length value) refl inside.0))

  pub extend_entry-Gives :
      (value : Bytes)
      → IsSound t
      → t.headers ≡ l ++ (e ∷ r)
      → All (Passes (found_in t.data' k) (past_in k)) l
      → found_in t.data' k e ≡ true
      → length t.data' + (e.valuelen + length value + 3) ≤ t.data_size
      → Gives t
          (put k value false (view t))
          (extend_entry realloc (length l) (slice t.data' e.value e.valuelen) value (t, true))
  unfolding extend_entry
  extend_entry-Gives value v es p f room =
      let inside =
        All-right (IsInside t.data') l (e ∷ r) (subst (All (IsInside t.data')) es v.inside) in
      let old = slice t.data' e.value e.valuelen in
      let oldlen : length old ≡ e.valuelen =
        length-slice t.data' e.value e.valuelen inside.0.value_le in
      let w = old ++ (b',' ∷ b' ' ∷ value) in
      let n = e.valuelen + 2 + length value in
      let len : n ≡ length w = omega (arith, oldlen, length-append old (b',' ∷ b' ' ∷ value)) in
      let xs : old ++ (b',' ∷ b' ' ∷ (value ++ (0 ∷ []))) ≡ w ++ (0 ∷ []) =
        sym (append_assoc old (b',' ∷ b' ' ∷ value) (0 ∷ [])) in
      let to = λ (y : Header). record y {
        value = length t.data';
        valuelen = y.valuelen + 2 + length value;
      } in
      let hs : change_at t.headers (length l) to ≡ l ++ (moved t.data' w (0 ∷ []) e n len ∷ r) =
        change_at-of t.headers l e r to es in
      rw hs (
        rw xs (
          changed-Gives realloc t k l e (moved t.data' w (0 ∷ []) e n len) r (w ++ (0 ∷ [])) value
            false v es p f (omega (arith, length-append w (0 ∷ []), len))
            (IsInside-moved t.data' w (0 ∷ []) e n len inside.0)
            (resolve-moved t.data' w (0 ∷ []) e n len inside.0)))
