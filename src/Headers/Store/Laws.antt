-- ===== src/Headers/Store/Laws.antt =====
-- http/http_headers.cpp: what a header's value is after another has been added.
use gweb_plusplus.Base.{
  ℕ, Bool, true, false, List, [], ◌∷◌, Option, none, some, ◌==◌, Bytes, length, arith, ◌≡◌, refl,
  ap, sym, ◌∙◌, Bool-cases, inl, inr, subst,
}
use Prim.Native.Nat.{Ordering, compare}
use gweb_plusplus.NameSearch.{lower, compare_names}
use gweb_plusplus.Headers.Store.{Store, is_multiple, is_found, Key, known, other, clean_value}
use gweb_plusplus.Headers.Store.Change.{add_key, get_key}
use gweb_plusplus.Headers.Store.View.{Field, view, is_for, is_after, field, joined, put, get}
use gweb_plusplus.Headers.Store.Room.{Gives, IsSound}
use gweb_plusplus.Headers.Store.Adds.{IsKey}
use gweb_plusplus.Headers.Store.Calls.{add_key-Gives}
use gweb_plusplus.Headers.Store.Reads.{get_key-get}

-- A header that may stand in one field only: all but `Cookie` and `Set-Cookie`.
abbrev pub IsSingle : Key → Type 0
IsSingle (known h) = is_multiple h ≡ false
IsSingle (other name) = Unit

compare_names_self : (name : Bytes) → compare_names lower name name (length name) ≡ Ordering.eq
unfolding compare_names
compare_names_self [] = refl
compare_names_self (c ∷ name) =
    let e : compare (lower c) (lower c) ≡ Ordering.eq = ground arith in
    rw e (compare_names_self name)

is_for-field : (k : Key) (v : Bytes) → IsSingle k → is_for k (field k v) ≡ true
unfolding is_found
is_for-field (known h) v single = rw single (ground arith)
is_for-field (other name) v single =
    let e : (length name == length name) ≡ true = ground arith in
    rw e (rw (compare_names_self name) refl)

-- The value that a key has after a call that adds `v`.
abbrev pub added_to : Bool → Bytes → Option Bytes → Bytes
added_to b v none = v
added_to b v (some old) = joined b old v

field-value : (k : Key) (v : Bytes) → (field k v).value ≡ v
field-value (known h) v = refl
field-value (other name) v = refl

is_for-value : (k : Key) (f : Field) (v : Bytes) → is_for k (record f { value = v }) ≡ is_for k f
is_for-value (known h) f v = refl
is_for-value (other name) f v = refl

get-put_self :
    (k : Key) (v : Bytes) (b : Bool) (fs : List Field)
    → IsSingle k
    → get k (put k v b fs) ≡ some (added_to b v (get k fs))
unfolding get put
get-put_self k v b [] single = rw (is_for-field k v single) (ap some (field-value k v))
get-put_self k v b (f ∷ fs) single = elim (Bool-cases (is_for k f)) [
  | inl e ↦ rw e (rw (is_for-value k f (joined b f.value v)) (rw e refl))
  | inr e ↦ elim (Bool-cases (is_after k f)) [
    | inl a ↦ rw e (rw a (rw (is_for-field k v single) (ap some (field-value k v))))
    | inr a ↦ rw e (rw a (rw e (rw a (get-put_self k v b fs single))))
  ]
]

module _ (realloc : ℕ → Bool) (s s' : Store) (k : Key) (v : Bytes) (b : Bool) where
  -- After `add_known_header` or `add_unknown_header` has succeeded for a header that may stand in one field only, on headers
  -- whose offsets lie within the data, a search for that header finds a value: the cleaned one where
  -- there was none or the call replaces, and otherwise the old one, a comma and the cleaned one.
  pub get_key-add_key :
      IsSound s
      → IsKey k
      → IsSingle k
      → add_key realloc s k v b ≡ (s', true)
      → get_key s' k ≡ some (added_to b (clean_value v) (get_key s k))
  get_key-add_key sound key single e =
      let g : Gives s (put k (clean_value v) b (view s)) (s', true) =
        subst (Gives s (put k (clean_value v) b (view s))) e
          (add_key-Gives realloc s k v b sound key) in
      get_key-get s' k g.0
      ∙ ap (get k) g.1
      ∙ get-put_self k (clean_value v) b (view s) single
      ∙ ap (λ o. some (added_to b (clean_value v) o)) (sym (get_key-get s k sound))
