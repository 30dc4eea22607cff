-- ===== src/FdMap/Examples.antt =====
-- The descriptor map on concrete calls, and its theorems at one of them.
use gweb_plusplus.Base.{Option, arith, ℕ, true, false, List, [], ◌∷◌, some, none, ◌≡◌, refl}
use gweb_plusplus.FdMap.{FdMap, no_descriptors, create, add, remove}
use gweb_plusplus.FdMap.Refines.{FdSet, Refines, create-Leaves}
use gweb_plusplus.FdMap.Runs.{Call, adding, removing, run, run_set, Ends, run-create}

abbrev empty : FdMap
empty = record no_descriptors { size = 8 }

abbrev nothing : FdSet
nothing fd = false

empty-Refines : Refines empty nothing
unfolding create
empty-Refines = (create-Leaves 8 (λ i. 0)).0

abbrev calls : List Call
calls = adding 5 ∷ adding 3 ∷ removing 5 ∷ []

-- The number of entries and the first of them.
used_and_first : Option FdMap → ℕ × ℕ
used_and_first none = (0, 0)
used_and_first (some m) = (m.used, m.index 0)

-- The last descriptor takes the place of the one that is removed.
last_moves : used_and_first (run calls empty) ≡ (1, 3)
unfolding run add remove used_and_first
last_moves = refl

run-create_example :
    Ends 8 (run_set calls nothing) (run calls (create 8 true true (λ i. 7) no_descriptors).0)
run-create_example = run-create 8 (λ i. 7) calls (omega arith, (omega arith, (omega arith, tt)))
