-- ===== src/Rules/Examples.antt =====
-- A list of one rule, and the theorem on `find` at it.
use gweb_plusplus.Base.{true, false, some, [], ◌∷◌, Bytes, ◌≡◌, refl}
use gweb_plusplus.NameSearch.{same}
use gweb_plusplus.SortedList.{SortedList, exists}
use gweb_plusplus.PathList.{without_slash}
use gweb_plusplus.PathList.Below.{IsBelow}
use gweb_plusplus.Rules.{
  Rule, Request, RuleList, find, matches, has_method, add_method, add_rule, get_rule,
}
use gweb_plusplus.Rules.First.{IsFirst, find-IsFirst}

abbrev one_path : SortedList Unit
one_path = record {
  buf = record { data' = b'/' ∷ b'a' ∷ []; size = 4; used = 2; increment = 4 };
  entries = record { offset = 0; len = 2; payload = tt } ∷ [];
  size = 8;
}

abbrev by_path : Rule
by_path = record {
  handler = 1;
  criterion = 0;
  paths = one_path;
  extensions = one_path;
  methods = 0;
}

abbrev local : Rule
local = record { handler = 2; criterion = 2; paths = one_path; extensions = one_path; methods = 0 }

abbrev one_rule : RuleList
one_rule = record { rules = by_path ∷ []; size = 4; default = local }

-- A request for `/a/b`.
abbrev below : Bytes
below = b'/' ∷ b'a' ∷ b'/' ∷ b'b' ∷ []

find-IsFirst_example :
    let q : Request = record { method = 0; path = below; extension = [] } in
    IsFirst q local (by_path ∷ []) (find one_rule q)
    × ((r : Rule)
        → r.criterion ≡ 0
        → IsBelow (exists same r.paths) (without_slash below) (matches q r))
find-IsFirst_example = find-IsFirst one_rule 0 b'/' (b'a' ∷ b'/' ∷ b'b' ∷ []) []

-- Two methods of a rule, one of them added twice.
methods_run : (add_method (add_method (add_method local 1) 3) 1).methods ≡ 10
unfolding add_method
methods_run = refl

has_method_run : (has_method 10 3 ≡ true) × (has_method 10 2 ≡ false)
has_method_run = (refl, refl)

-- The array of rules is full.
add_rule_run :
    get_rule (add_rule (λ n. true) (record { rules = []; size = 0; default = local }) by_path).0 0
    ≡ some by_path
unfolding get_rule add_rule
add_rule_run = refl

no_memory_run :
    (add_rule (λ n. false) (record { rules = []; size = 0; default = local }) by_path).1 ≡ false
unfolding add_rule
no_memory_run = refl
