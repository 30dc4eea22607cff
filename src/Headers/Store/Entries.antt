-- ===== src/Headers/Store/Entries.antt =====
-- http/http_headers.cpp: an entry behind others, a slice of the data, and the length of a cleaned value.
use gweb_plusplus.Base.{
  ◌≤◌, List, [], ◌∷◌, ◌++◌, some, Bytes, length, map, get_elem?, arith, ◌≡◌, refl, ap, ◌∙◌,
  take-append, drop-append, take-length, drop-length,
}
use gweb_plusplus.Headers.Store.{Header, slice, clean_value, clean_from, CleanState}
use gweb_plusplus.Headers.Store.Change.{insert_at, change_at, remove_at}
use gweb_plusplus.Headers.Store.View.{resolve}

-- Where an entry stands behind others.
pub change_at-append :
    (l : List Header) (e : Header) (r : List Header) (f : Header → Header)
    → change_at (l ++ (e ∷ r)) (length l) f ≡ l ++ (f e ∷ r)
change_at-append [] e r f = refl
change_at-append (x ∷ l) e r f = ap (◌∷◌ x) (change_at-append l e r f)

pub change_at-of :
    (hs l : List Header) (e : Header) (r : List Header) (f : Header → Header)
    → hs ≡ l ++ (e ∷ r)
    → change_at hs (length l) f ≡ l ++ (f e ∷ r)
change_at-of hs l e r f d = ap (λ h. change_at h (length l) f) d ∙ change_at-append l e r f

pub remove_at-append :
    (l : List Header) (e : Header) (r : List Header) → remove_at (l ++ (e ∷ r)) (length l) ≡ l ++ r
remove_at-append [] e r = refl
remove_at-append (x ∷ l) e r = ap (◌∷◌ x) (remove_at-append l e r)

pub get_elem?-append :
    (l : List Header) (e : Header) (r : List Header) → get_elem? (l ++ (e ∷ r)) (length l) ≡ some e
get_elem?-append [] e r = refl
get_elem?-append (x ∷ l) e r = get_elem?-append l e r

pub insert_at-append :
    (l r : List Header) (e : Header) → insert_at (l ++ r) (length l) e ≡ l ++ (e ∷ r)
insert_at-append [] r e = refl
insert_at-append (x ∷ l) r e = ap (◌∷◌ x) (insert_at-append l r e)

pub length-clean_from : (st : CleanState) (v : Bytes) → length (clean_from st v) ≤ length v
unfolding clean_from
length-clean_from st [] = omega arith
length-clean_from CleanState.at_start (c ∷ v) =
    ground (arith, length-clean_from CleanState.at_start v, length-clean_from CleanState.in_word v)
length-clean_from CleanState.in_word (c ∷ v) =
    ground
      (arith, length-clean_from CleanState.after_word v, length-clean_from CleanState.in_word v)
length-clean_from CleanState.after_word (c ∷ v) =
    ground
      (arith, length-clean_from CleanState.after_word v, length-clean_from CleanState.in_word v)

pub length-clean_value : (v : Bytes) → length (clean_value v) ≤ length v
unfolding clean_value
length-clean_value v = length-clean_from CleanState.at_start v

-- The bytes that stand between two others are the slice at their place.
pub slice-between : (a b c : Bytes) → slice (a ++ (b ++ c)) (length a) (length b) ≡ b
unfolding slice
slice-between a b c =
    rw (drop-append (length a) a (b ++ c) (omega arith))
      (rw (drop-length a) (take-append (length b) b c (omega arith) ∙ take-length b))

pub map-append :
    (d : Bytes) (l r : List Header)
    → map (resolve d) (l ++ r) ≡ map (resolve d) l ++ map (resolve d) r
map-append d [] r = refl
map-append d (e ∷ l) r = ap (◌∷◌ (resolve d e)) (map-append d l r)
