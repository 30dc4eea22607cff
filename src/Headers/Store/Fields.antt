-- ===== src/Headers/Store/Fields.antt =====
-- The operations on a list of fields, where a search by their key ends.
use gweb_plusplus.Base.{Bool, true, List, [], ◌∷◌, ◌++◌, none, some, Bytes, All, ◌≡◌, refl, ap}
use gweb_plusplus.Headers.Store.{Key}
use gweb_plusplus.Headers.Store.View.{Field, is_for, is_after, field, joined, put, get, delete}
use gweb_plusplus.Headers.Store.Walk.{Passes, Stops}

module _ (k : Key) where
  abbrev pub Passed : List Field → Type 0
  Passed l = All (Passes (is_for k) (is_after k)) l

  pub put-found :
      (v : Bytes) (b : Bool) (l : List Field) (f : Field) (r : List Field)
      → Passed l
      → is_for k f ≡ true
      → put k v b (l ++ (f ∷ r)) ≡ l ++ (record f { value = joined b f.value v } ∷ r)
  unfolding put
  put-found v b [] f r p e = rw e refl
  put-found v b (x ∷ l) f r p e = rw p.0.0 (rw p.0.1 (ap (◌∷◌ x) (put-found v b l f r p.1 e)))

  pub put-absent :
      (v : Bytes) (b : Bool) (l r : List Field)
      → Passed l
      → Stops (is_for k) (is_after k) r
      → put k v b (l ++ r) ≡ l ++ (field k v ∷ r)
  unfolding put
  put-absent v b [] [] p s = refl
  put-absent v b [] (x ∷ r) p s = rw s.0 (rw s.1 refl)
  put-absent v b (x ∷ l) r p s = rw p.0.0 (rw p.0.1 (ap (◌∷◌ x) (put-absent v b l r p.1 s)))

  pub get-found :
      (l : List Field) (f : Field) (r : List Field)
      → Passed l
      → is_for k f ≡ true
      → get k (l ++ (f ∷ r)) ≡ some f.value
  unfolding get
  get-found [] f r p e = rw e refl
  get-found (x ∷ l) f r p e = rw p.0.0 (rw p.0.1 (get-found l f r p.1 e))

  pub get-absent :
      (l r : List Field) → Passed l → Stops (is_for k) (is_after k) r → get k (l ++ r) ≡ none
  unfolding get
  get-absent [] [] p s = refl
  get-absent [] (x ∷ r) p s = rw s.0 (rw s.1 refl)
  get-absent (x ∷ l) r p s = rw p.0.0 (rw p.0.1 (get-absent l r p.1 s))

  pub delete-found :
      (l : List Field) (f : Field) (r : List Field)
      → Passed l
      → is_for k f ≡ true
      → delete k (l ++ (f ∷ r)) ≡ l ++ r
  unfolding delete
  delete-found [] f r p e = rw e refl
  delete-found (x ∷ l) f r p e = rw p.0.0 (rw p.0.1 (ap (◌∷◌ x) (delete-found l f r p.1 e)))

  pub delete-absent :
      (l r : List Field) → Passed l → Stops (is_for k) (is_after k) r → delete k (l ++ r) ≡ l ++ r
  unfolding delete
  delete-absent [] [] p s = refl
  delete-absent [] (x ∷ r) p s = rw s.0 (rw s.1 refl)
  delete-absent (x ∷ l) r p s = rw p.0.0 (rw p.0.1 (ap (◌∷◌ x) (delete-absent l r p.1 s)))
