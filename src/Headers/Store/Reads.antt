-- ===== src/Headers/Store/Reads.antt =====
-- http/http_headers.cpp: reading and removing a header, as operations on fields.
use gweb_plusplus.Base.{
  ℕ, Bool, true, false, ◌∷◌, ◌++◌, none, if◌then◌else◌, length, map, All, All-append, All-left,
  All-right, get_elem?, length-append, arith, ◌≡◌, refl, ap, sym, ◌∙◌, subst,
}
use gweb_plusplus.Headers.Store.{Store, Key, search_key}
use gweb_plusplus.Headers.Store.Change.{remove_at, remove_key, get_key, value_at}
use gweb_plusplus.Headers.Store.View.{resolve, view, is_some, get, delete, IsInside}
use gweb_plusplus.Headers.Store.Walk.{
  IsWalk, found_in, past_in, search_key-IsWalk, found_in-is_for, Passes-resolve, Stops-resolve,
}
use gweb_plusplus.Headers.Store.Fields.{get-found, get-absent, delete-found, delete-absent}
use gweb_plusplus.Headers.Store.Room.{IsSound}
use gweb_plusplus.Headers.Store.Entries.{remove_at-append, map-append}
use gweb_plusplus.Headers.Store.Calls.{at-place}

-- Headers without the first field of the key, with whether there was one.
abbrev pub IsRemoved : Store → Key → Store × Bool → Type 0
IsRemoved s k (t, b) =
    IsSound t × (view t ≡ delete k (view s)) × (b ≡ is_some (get k (view s))) × (t.data' ≡ s.data')

module _ (s : Store) (k : Key) (v : IsSound s) where
  got :
      (w : ℕ × Bool)
      → IsWalk (found_in s.data' k) (past_in k) s.headers 0 w
      → (if w.1 then value_at s (get_elem? s.headers w.0) else none) ≡ get k (view s)
  unfolding value_at
  got (pos, true) (l, e, r, es, at, p, f) =
      let d = s.data' in
      let inside : All (IsInside d) (l ++ (e ∷ r)) = subst (All (IsInside d)) es v.inside in
      let il = All-left (IsInside d) l (e ∷ r) inside in
      let ir = All-right (IsInside d) l (e ∷ r) inside in
      ap (value_at s) (at-place s.headers l e r pos es at)
      ∙ sym (
          get-found k (map (resolve d) l) (resolve d e) (map (resolve d) r)
            (Passes-resolve k d l il p) (sym (found_in-is_for k d e ir.0) ∙ f))
      ∙ ap (get k) (sym (ap (map (resolve d)) es ∙ map-append d l (e ∷ r)))
  got (pos, false) (l, r, es, at, p, st) =
      let d = s.data' in
      let inside : All (IsInside d) (l ++ r) = subst (All (IsInside d)) es v.inside in
      let il = All-left (IsInside d) l r inside in
      let ir = All-right (IsInside d) l r inside in
      sym (
        get-absent k (map (resolve d) l) (map (resolve d) r) (Passes-resolve k d l il p)
          (Stops-resolve k d r ir st))
      ∙ ap (get k) (sym (ap (map (resolve d)) es ∙ map-append d l r))

  -- On headers whose offsets lie within the data, `get_value_known_header` and
  -- `get_value_unknown_header` return the value of the first field of the
  -- key, where the search for it comes to one.
  pub get_key-get : get_key s k ≡ get k (view s)
  unfolding get_key
  get_key-get = got (search_key s k) (search_key-IsWalk s k)

  removed :
      (w : ℕ × Bool)
      → IsWalk (found_in s.data' k) (past_in k) s.headers 0 w
      → IsRemoved s k
          (if w.1 then (record s { headers = remove_at s.headers w.0 }, true) else (s, false))
  removed (pos, true) (l, e, r, es, at, p, f) =
      let d = s.data' in
      let inside : All (IsInside d) (l ++ (e ∷ r)) = subst (All (IsInside d)) es v.inside in
      let il = All-left (IsInside d) l (e ∷ r) inside in
      let ir = All-right (IsInside d) l (e ∷ r) inside in
      let place : pos ≡ length l = omega arith in
      let hs : remove_at s.headers pos ≡ l ++ r =
        ap (remove_at s.headers) place
        ∙ ap (λ h. remove_at h (length l)) es
        ∙ remove_at-append l e r in
      let fields : view s ≡ map (resolve d) l ++ (resolve d e ∷ map (resolve d) r) =
        ap (map (resolve d)) es ∙ map-append d l (e ∷ r) in
      let passed = Passes-resolve k d l il p in
      let here = sym (found_in-is_for k d e ir.0) ∙ f in
      rw hs (
        record {
          inside = All-append (IsInside d) l r il ir.1;
          slots = omega (arith, v.slots, ap length es, length-append l (e ∷ r), length-append l r);
          fits = v.fits;
          small = v.small;
        },
        map-append d l r
            ∙ sym (
                ap (delete k) fields
                ∙ delete-found k (map (resolve d) l) (resolve d e) (map (resolve d) r) passed here),
        sym (
            ap (λ fs. is_some (get k fs)) fields
            ∙ ap is_some
                (get-found k (map (resolve d) l) (resolve d e) (map (resolve d) r) passed here)),
        refl,
      )
  removed (pos, false) (l, r, es, at, p, st) =
      let d = s.data' in
      let inside : All (IsInside d) (l ++ r) = subst (All (IsInside d)) es v.inside in
      let fields : view s ≡ map (resolve d) l ++ map (resolve d) r =
        ap (map (resolve d)) es ∙ map-append d l r in
      let passed = Passes-resolve k d l (All-left (IsInside d) l r inside) p in
      let ends = Stops-resolve k d r (All-right (IsInside d) l r inside) st in
      (
        v,
        fields
            ∙ sym (
                ap (delete k) fields
                ∙ delete-absent k (map (resolve d) l) (map (resolve d) r) passed ends),
        sym (
            ap (λ fs. is_some (get k fs)) fields
            ∙ ap is_some (get-absent k (map (resolve d) l) (map (resolve d) r) passed ends)),
        refl,
      )

  -- On headers whose offsets lie within the data, `remove_known_header` and `remove_unknown_header` take the first
  -- field of the key out, where the search comes to one, and return true; where it comes to none, they return false;
  -- they leave the other fields and the data as they were.
  pub remove_key-delete : IsRemoved s k (remove_key s k)
  unfolding remove_key
  remove_key-delete = removed (search_key s k) (search_key-IsWalk s k)
