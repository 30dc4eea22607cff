-- ===== src/Rules/First.antt =====
-- http/rulelist.h: which rule `find` returns, and what it takes for a path to match.
use gweb_plusplus.Base.{
  ℕ, true, false, List, [], ◌∷◌, ◌++◌, Bytes, All, Bool-cases, ◌⊎◌, inl, inr, ◌≡◌, refl, ap,
}
use gweb_plusplus.NameSearch.{same}
use gweb_plusplus.SortedList.{exists}
use gweb_plusplus.PathList.{without_slash}
use gweb_plusplus.PathList.Below.{IsBelow, path_exists-IsBelow}
use gweb_plusplus.Rules.{Rule, Request, RuleList, answer, matches, find_in, find}

-- The rule stands in the list, it matches, and none before it does; or none matches and it is the default.
abbrev pub IsFirst : Request → Rule → List Rule → Rule → Type 0
IsFirst q default rules found =
    ((before : List Rule) × (after : List Rule) × (rules ≡ before ++ (found ∷ after))
      × All (λ r. matches q r ≡ false) before
      × (matches q found ≡ true))
    ⊎ (All (λ r. matches q r ≡ false) rules × (found ≡ default))

find_in-IsFirst :
    (q : Request) (default : Rule) (rules : List Rule)
    → IsFirst q default rules (find_in q default rules)
unfolding find_in
find_in-IsFirst q default [] = inr (tt, refl)
find_in-IsFirst q default (r ∷ rules) = elim (Bool-cases (matches q r)) [
  | inl d ↦ rw d (inl ([], rules, refl, tt, d))
  | inr d ↦ rw d (elim (find_in-IsFirst q default rules) [
    | inl (before, after, e, none_before, here) ↦
        inl (r ∷ before, after, ap (◌∷◌ r) e, (d, none_before), here)
    | inr (no_match, e) ↦ inr ((refl, no_match), e)
  ])
]

-- A rule by path matches a request for a path of a byte or more just where one of the directories of the path is
-- in the rule's list, and `find` returns the first of the rules that match, or the default where none does.
pub find-IsFirst :
    (l : RuleList) (method c : ℕ) (rest extension : Bytes)
    → let q : Request = record { method = method; path = c ∷ rest; extension = extension } in
      IsFirst q l.default l.rules (find l q)
      × ((r : Rule)
          → r.criterion ≡ 0
          → IsBelow (exists same r.paths) (without_slash (c ∷ rest)) (matches q r))
unfolding find matches
find-IsFirst l method c rest extension =
    let q : Request = record { method = method; path = c ∷ rest; extension = extension } in
    (
      find_in-IsFirst q l.default l.rules,
      λ r by_path.
          let (b, e, below) = path_exists-IsBelow r.paths c rest in
          rw by_path (rw (ap answer e) below),
    )
