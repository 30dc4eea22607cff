-- ===== src/FdMap/Runs.antt =====
-- net/fdmap.cpp: any sequence of calls on a new map.
use gweb_plusplus.Base.{
  ℕ, ◌<◌, Bool, true, false, List, [], ◌∷◌, Option, none, some, ◌≡◌, refl, All, ◌∙◌, subst, sym,
  ◌>>=◌, arith,
}
use gweb_plusplus.FdMap.{FdMap, update, no_descriptors, create, add, remove}
use gweb_plusplus.FdMap.Refines.{FdSet, Refines, Leaves, create-Leaves, add-Leaves, remove-Leaves}

pub data Call : Type 0 where
  adding removing : ℕ → Call

abbrev pub target : Call → ℕ
target (adding fd) = fd
target (removing fd) = fd

abbrev pub call : Call → FdMap → Option (FdMap × Bool)
call (adding fd) m = add m fd
call (removing fd) m = remove m fd

-- The same on the set.
abbrev pub call_set : Call → FdSet → FdSet
call_set (adding fd) set = update set fd true
call_set (removing fd) set = update set fd false

unfoldable pub run : List Call → FdMap → Option FdMap
run [] m = some m
run (c ∷ cs) m = call c m >>= λ r. run cs r.0

pub run_set : List Call → FdSet → FdSet
run_set [] set = set
run_set (c ∷ cs) set = run_set cs (call_set c set)

-- The result of a run that stays within the arrays stands for `set`.
abbrev pub Ends : ℕ → FdSet → Option FdMap → Type 0
Ends size set none = ⊥
Ends size set (some m) = Refines m set × (m.size ≡ size)

Leaves-some :
    (m : FdMap) (set : FdSet) (b : Bool) (o : Option (FdMap × Bool))
    → Leaves m set b o
    → (r : FdMap × Bool) × (o ≡ some r) × Refines r.0 set × (r.0.size ≡ m.size)
Leaves-some m set b none h = elim h [ ]
Leaves-some m set b (some (m', done)) h = ((m', done), refl, h.0, h.1)

call-Ends :
    (c : Call) (m : FdMap) (set : FdSet)
    → Refines m set
    → target c < m.size
    → (r : FdMap × Bool) × (call c m ≡ some r) × Refines r.0 (call_set c set) × (r.0.size ≡ m.size)
call-Ends (adding fd) m set v lt =
    Leaves-some m (update set fd true) _ (add m fd) (add-Leaves m set fd v lt)
call-Ends (removing fd) m set v lt =
    Leaves-some m (update set fd false) _ (remove m fd) (remove-Leaves m set fd v lt)

run-Ends :
    (cs : List Call) (size : ℕ) (m : FdMap) (set : FdSet)
    → Refines m set
    → m.size ≡ size
    → All (λ c. target c < size) cs
    → Ends size (run_set cs set) (run cs m)
unfolding run run_set
run-Ends [] size m set v e h = (v, e)
run-Ends (c ∷ cs) size m set v e h =
    let (r, d, w, f) = call-Ends c m set v (omega (arith, h.0)) in
    subst (λ o. Ends size (run_set cs (call_set c set)) (o >>= λ x. run cs x.0)) (sym d)
      (run-Ends cs size r.0 (call_set c set) w (f ∙ e) h.1)

-- The map that `create` makes for a limit stands, after any sequence of calls of `add` and `remove`
-- for descriptors below the limit, for the set that the sequence leaves; no call goes past the arrays.
pub run-create :
    (limit : ℕ) (garbage : ℕ → ℕ) (cs : List Call)
    → All (λ c. target c < limit) cs
    → Ends limit
        (run_set cs (λ fd. false))
        (run cs (create limit true true garbage no_descriptors).0)
unfolding create
run-create limit garbage cs h =
    let (v, e, d) = create-Leaves limit garbage in run-Ends cs limit _ (λ fd. false) v e h
