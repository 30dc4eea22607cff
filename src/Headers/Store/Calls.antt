-- ===== src/Headers/Store/Calls.antt =====
-- http/http_headers.cpp: adding, removing and reading a header, as operations on fields.
use gweb_plusplus.Base.{
  ℕ, ◌+◌, Bool, true, false, List, ◌∷◌, ◌++◌, some, Bytes, length, map, All, get_elem?, arith, ◌≡◌,
  ap, sym, ◌∙◌, subst,
}
use gweb_plusplus.Headers.Store.{Header, Store, slice, Key, key_data, search_key, clean_value}
use gweb_plusplus.Headers.Store.Change.{
  allocate, allocate_data, allocate_both, new_entry, replace_entry, extend_entry, add_found, add_at,
  add_key,
}
use gweb_plusplus.Headers.Store.View.{Field, resolve, view, put}
use gweb_plusplus.Headers.Store.Walk.{IsWalk, Passes, Stops, found_in, past_in, search_key-IsWalk}
use gweb_plusplus.Headers.Store.Room.{
  Gives, IsSound, HasRoom, allocate-HasRoom, allocate_data-HasRoom, allocate_both-HasRoom,
}
use gweb_plusplus.Headers.Store.Entries.{length-clean_value, get_elem?-append}
use gweb_plusplus.Headers.Store.Adds.{IsKey}
use gweb_plusplus.Headers.Store.Refines.{new_entry-Gives, replace_entry-Gives, extend_entry-Gives}

-- The entries found by a search are the same after an allocation.
module _ (s t : Store) (hs : t.headers ≡ s.headers) (ds : t.data' ≡ s.data') where
  same-view : view t ≡ view s
  same-view = ap (λ d. map (resolve d) t.headers) ds ∙ ap (map (resolve s.data')) hs

  same-Gives : (r : Store × Bool) (fs gs : List Field) → fs ≡ gs → Gives t fs r → Gives s gs r
  same-Gives (u, true) fs gs e g = (g.0, g.1 ∙ e)
  same-Gives (u, false) fs gs e g = (g.0, g.1 ∙ same-view)

module _ (realloc : ℕ → Bool) (s : Store) (k : Key) (value : Bytes) (b : Bool) where
  absent-Gives :
      (l r : List Header) (room : Store × Bool)
      → IsKey k
      → s.headers ≡ l ++ r
      → All (Passes (found_in s.data' k) (past_in k)) l
      → Stops (found_in s.data' k) (past_in k) r
      → HasRoom s 1 (length (key_data k) + length value + 1) room
      → Gives s
          (put k (clean_value value) b (view s))
          (new_entry realloc k (length l) (clean_value value) room)
  unfolding new_entry
  absent-Gives l r (t, false) ne es p st (v, hs, ds) = (v, same-view s t hs ds)
  absent-Gives l r (t, true) ne es p st (v, hs, ds, slots, room, more) =
      same-Gives s t hs ds (new_entry realloc k (length l) (clean_value value) (t, true))
        (put k (clean_value value) b (view t)) (put k (clean_value value) b (view s))
        (ap (put k (clean_value value) b) (same-view s t hs ds))
        (new_entry-Gives realloc t k l r (clean_value value) b v ne (hs ∙ es)
          (subst (λ d. All (Passes (found_in d k) (past_in k)) l) (sym ds) p)
          (subst (λ d. Stops (found_in d k) (past_in k) r) (sym ds) st)
          (omega (arith, ap length hs)) (omega (arith, ap length ds, length-clean_value value)))

module _ (realloc : ℕ → Bool) (s : Store) (k : Key) (value : Bytes) (l : List Header) (e : Header)
    (r : List Header) (es : s.headers ≡ l ++ (e ∷ r))
    (p : All (Passes (found_in s.data' k) (past_in k)) l) (f : found_in s.data' k e ≡ true) where
  replaced-Gives :
      (room : Store × Bool)
      → HasRoom s 0 (length value + 1) room
      → Gives s
          (put k (clean_value value) true (view s))
          (replace_entry realloc (length l) (clean_value value) room)
  unfolding replace_entry
  replaced-Gives (t, false) (v, hs, ds) = (v, same-view s t hs ds)
  replaced-Gives (t, true) (v, hs, ds, slots, room, more) =
      same-Gives s t hs ds (replace_entry realloc (length l) (clean_value value) (t, true))
        (put k (clean_value value) true (view t)) (put k (clean_value value) true (view s))
        (ap (put k (clean_value value) true) (same-view s t hs ds))
        (replace_entry-Gives realloc t k l e r (clean_value value) v (hs ∙ es)
          (subst (λ d. All (Passes (found_in d k) (past_in k)) l) (sym ds) p)
          (subst (λ d. found_in d k e ≡ true) (sym ds) f)
          (omega (arith, ap length ds, length-clean_value value)))

  extended-Gives :
      (room : Store × Bool)
      → HasRoom s 0 (e.valuelen + length value + 3) room
      → Gives s (put k (clean_value value) false (view s)) (
          extend_entry realloc
            (length l)
            (slice s.data' e.value e.valuelen)
            (clean_value value)
            room)
  unfolding extend_entry
  extended-Gives (t, false) (v, hs, ds) = (v, same-view s t hs ds)
  extended-Gives (t, true) (v, hs, ds, slots, room, more) =
      same-Gives s t hs ds
        (extend_entry realloc (length l) (slice s.data' e.value e.valuelen) (clean_value value)
          (t, true))
        (put k (clean_value value) false (view t)) (put k (clean_value value) false (view s))
        (ap (put k (clean_value value) false) (same-view s t hs ds))
        (subst
          (λ d. Gives t (put k (clean_value value) false (view t)) (
            extend_entry realloc (length l) (slice d e.value e.valuelen) (clean_value value)
              (t, true)))
          ds
          (extend_entry-Gives realloc t k l e r (clean_value value) v (hs ∙ es)
            (subst (λ d. All (Passes (found_in d k) (past_in k)) l) (sym ds) p)
            (subst (λ d. found_in d k e ≡ true) (sym ds) f)
            (omega (arith, ap length ds, length-clean_value value))))

  found-Gives :
      (b : Bool)
      → IsSound s
      → Gives s
          (put k (clean_value value) b (view s))
          (add_found realloc s (length l) value b (some e))
  unfolding add_found
  found-Gives true v =
      replaced-Gives (allocate_data realloc s (length value + 1))
        (allocate_data-HasRoom realloc s (length value + 1) v)
  found-Gives false v =
      extended-Gives (allocate_data realloc s (e.valuelen + length value + 3))
        (allocate_data-HasRoom realloc s (e.valuelen + length value + 3) v)

-- A search's place and the entry there.
pub at-place :
    (hs l : List Header) (e : Header) (r : List Header) (pos : ℕ)
    → hs ≡ l ++ (e ∷ r)
    → pos ≡ 0 + length l
    → get_elem? hs pos ≡ some e
at-place hs l e r pos es at =
    ap (get_elem? hs) (at ∙ zero-add-length l)
    ∙ ap (λ h. get_elem? h (length l)) es
    ∙ get_elem?-append l e r
  where
    zero-add-length : (m : List Header) → 0 + length m ≡ length m
    zero-add-length m = omega arith

module _ (realloc : ℕ → Bool) (s : Store) (k : Key) (value : Bytes) (b : Bool) where
  add_at-Gives :
      (w : ℕ × Bool)
      → IsSound s
      → IsKey k
      → IsWalk (found_in s.data' k) (past_in k) s.headers 0 w
      → Gives s (put k (clean_value value) b (view s)) (add_at realloc s k value b w)
  unfolding add_at
  add_at-Gives (pos, true) v ne (l, e, r, es, at, p, f) = rw (at-place s.headers l e r pos es at) (
      subst
        (λ n.
          Gives s (put k (clean_value value) b (view s)) (add_found realloc s n value b (some e)))
        (let d : length l ≡ pos = omega arith in d)
        (found-Gives realloc s k value l e r es p f b v))
  add_at-Gives (pos, false) v ne (l, r, es, at, p, st) =
      let len = length (key_data k) + length value + 1 in
      subst
        (λ n. Gives s (put k (clean_value value) b (view s)) (
          new_entry realloc k n (clean_value value)
            (allocate_both realloc (allocate realloc s) len)))
        (let d : length l ≡ pos = omega arith in d)
        (absent-Gives realloc s k value b l r (allocate_both realloc (allocate realloc s) len) ne es
          p st
          (allocate_both-HasRoom realloc s len (allocate realloc s) (allocate-HasRoom realloc s v)))

  -- `add_known_header` and `add_unknown_header`, on headers whose offsets lie within the data, leave such
  -- headers, whatever `realloc` does. Where they succeed, the fields are those with the cleaned value put in:
  -- in place of the field's value, behind it and a comma, or in a new field, behind the fields of the
  -- types up to its own; where they fail, the fields are as they were.
  pub add_key-Gives :
      IsSound s
      → IsKey k
      → Gives s (put k (clean_value value) b (view s)) (add_key realloc s k value b)
  unfolding add_key
  add_key-Gives v ne = add_at-Gives (search_key s k) v ne (search_key-IsWalk s k)
