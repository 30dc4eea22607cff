-- ===== src/Rules.antt =====
-- http/rulelist.{h,cpp}: the rules of a virtual host, of which the first that matches a request decides what
-- handles it. The backends of a rule are in Backends.
pub mod First
mod Examples
use gweb_plusplus.Base.{
  ℕ, zero, suc, ◌+◌, ◌/◌, ◌%◌, ◌^◌, Bool, true, false, List, [], ◌∷◌, ◌++◌, Option, none, some,
  ◌==◌, if◌then◌else◌, Bytes, length, get_elem?,
}
use gweb_plusplus.SortedList.{SortedList}
use gweb_plusplus.PathList.{new_string_list, string_exists, path_exists}

pub record Rule : Type 0 where
  pub handler : ℕ
  pub criterion : ℕ
  pub paths : SortedList Unit
  pub extensions : SortedList Unit
  pub methods : ℕ

-- `methods & (1 << method)`
abbrev has_method : ℕ → ℕ → Bool
has_method methods method = methods / 2 ^ method % 2 == 1

-- `methods |= (1 << method)`
add_method : Rule → ℕ → Rule
add_method r method = record r {
  methods = if has_method r.methods method then r.methods else r.methods + 2 ^ method;
}

pub record Request : Type 0 where
  pub method : ℕ
  pub path : Bytes
  pub extension : Bytes

-- The search for a path of a byte or more returns.
abbrev pub answer : Option Bool → Bool
answer none = false
answer (some b) = b

pub matches : Request → Rule → Bool
unfolding path_exists
matches q r =
    if r.criterion == 0
    then answer (path_exists r.paths q.path)
    else if r.criterion == 1
    then (if length q.extension == 0 then false else string_exists r.extensions q.extension)
    else has_method r.methods q.method

pub record RuleList : Type 0 where
  pub rules : List Rule
  pub size : ℕ
  pub default : Rule

module _ (realloc : ℕ → Bool) where
  add_rule : RuleList → Rule → RuleList × Bool
  add_rule l r =
      if length l.rules == l.size
      then if realloc (l.size + 4)
        then (record l { rules = l.rules ++ (r ∷ []); size = l.size + 4 }, true)
        else (l, false)
      else (record l { rules = l.rules ++ (r ∷ []) }, true)

get_rule : RuleList → ℕ → Option Rule
get_rule l i = get_elem? l.rules i

-- The loop of `find`.
pub find_in : Request → Rule → List Rule → Rule
unfolding matches
find_in q default [] = default
find_in q default (r ∷ rules) =
    let rest = find_in q default rules in if matches q r then r else rest

pub find : RuleList → Request → Rule
unfolding find_in
find l q = find_in q l.default l.rules
