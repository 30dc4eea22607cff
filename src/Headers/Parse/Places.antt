-- ===== src/Headers/Parse/Places.antt =====
-- http/http_headers.cpp: where the offsets of `parse` lie, in each state.
use gweb_plusplus.Base.{
  ℕ, ◌+◌, ◌≤◌, Bool, true, false, if◌then◌else◌, more, stop, arith, ◌≡◌, ◌≢◌, refl,
}
use gweb_plusplus.Headers.Table.{unknown_header}
use gweb_plusplus.Headers.Store.Room.{IsSound}
use gweb_plusplus.Headers.Parse.{
  State, start, in_name, after_name, after_colon, in_value, after_cr, after_lf, in_fold,
  ParseResult, error_no_memory, error_wrong_headers, error_headers_too_large, not_end_of_header,
  end_of_header, Parser, Turn,
}

-- The name lies before the offset.
abbrev pub NameFits : State → Parser → Type 0
NameFits after_name p = p.token + p.namelen ≤ p.offset
NameFits _ p = p.header ≡ unknown_header → p.name + p.namelen ≤ p.offset

-- Where the value ends, it has begun: `_M_end - _M_token` is not negative.
abbrev pub ValueFits : State → Parser → Type 0
ValueFits in_value p = p.end' ≢ 0 → p.token ≤ p.end'
ValueFits after_cr p = p.token ≤ p.end'
ValueFits after_lf p = p.token ≤ p.end'
ValueFits in_fold p = p.token ≤ p.end'
ValueFits in_name p = Unit
ValueFits after_name p = Unit
ValueFits _ p = p.token ≡ 0

-- The parser between two bytes, in a state.
pub record IsIn (s : State) (p : Parser) : Type 0 where
  pub at : p.state ≡ s
  pub sound : IsSound p.store
  pub token_le : p.token ≤ p.offset
  pub end_le : p.end' ≤ p.offset
  pub name_fits : NameFits s p
  pub value_fits : ValueFits s p

abbrev pub IsReading : Parser → Type 0
IsReading p = IsIn p.state p × (p.offset ≤ 8192)

-- What a round at an offset may return.
abbrev pub IsReturned : ℕ → ParseResult → Type 0
IsReturned n error_no_memory = Unit
IsReturned n error_wrong_headers = Unit
IsReturned n error_headers_too_large = ⊥
IsReturned n not_end_of_header = ⊥
IsReturned n (end_of_header m) = m ≡ n + 1

-- A round at an offset leaves the offsets in place for the next byte, or returns.
abbrev pub Keeps : ℕ → Turn → Type 0
Keeps n (more q) = ((s : State) × IsIn s (record q { offset = q.offset + 1 })) × (q.offset ≡ n)
Keeps n (stop (q, r)) = IsSound q.store × (q.offset ≡ n) × IsReturned n r

-- A property of both branches.
pub if_all :
    {A : Type 0} (P : A → Type 0) (b : Bool) {x y : A}
    → (b ≡ true → P x)
    → (b ≡ false → P y)
    → P (if b then x else y)
if_all P true h k = h refl
if_all P false h k = k refl

-- The state stays as it is.
pub stays-Keeps : (s : State) (p : Parser) → IsIn s p → Keeps p.offset (more p)
stays-Keeps s p v = (
  (
    s,
    record {
      at = v.at;
      sound = v.sound;
      token_le = omega (arith, v.token_le);
      end_le = omega (arith, v.end_le);
      name_fits = later s v.name_fits;
      value_fits = same_value s v.value_fits;
    },
  ),
  refl,
)
  where
    q : Parser
    q = record p { offset = p.offset + 1 }

    later : (t : State) → NameFits t p → NameFits t q
    later start h = λ e. omega (arith, h e)
    later in_name h = λ e. omega (arith, h e)
    later after_name h = omega (arith, h)
    later after_colon h = λ e. omega (arith, h e)
    later in_value h = λ e. omega (arith, h e)
    later after_cr h = λ e. omega (arith, h e)
    later after_lf h = λ e. omega (arith, h e)
    later in_fold h = λ e. omega (arith, h e)

    same_value : (t : State) → ValueFits t p → ValueFits t q
    same_value start h = h
    same_value in_name h = h
    same_value after_name h = h
    same_value after_colon h = h
    same_value in_value h = h
    same_value after_cr h = h
    same_value after_lf h = h
    same_value in_fold h = h

-- The parser comes to a state.
pub enters-Keeps :
    (s : State) (p : Parser)
    → IsSound p.store
    → p.token ≤ p.offset
    → p.end' ≤ p.offset
    → NameFits s (record p { state = s })
    → ValueFits s (record p { state = s })
    → Keeps p.offset (more (record p { state = s }))
enters-Keeps s p sound token_le end_le name_fits value_fits =
    stays-Keeps s (record p { state = s })
      (record {
        at = refl;
        sound = sound;
        token_le = token_le;
        end_le = end_le;
        name_fits = name_fits;
        value_fits = value_fits;
      })
