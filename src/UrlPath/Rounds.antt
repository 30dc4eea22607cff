-- ===== src/UrlPath/Rounds.antt =====
-- net/url_parser.cpp: the rounds of the loop of `parse_path`.
use gweb_plusplus.Base.{
  ℕ, suc, ◌+◌, ◌*◌, ◌<◌, Bytes, [], ◌∷◌, ◌≡◌, ◌≢◌, refl, Option, none, some, arith, length, more,
  loop_total,
}
use gweb_plusplus.UrlPath.{
  State, slash, dot, dot_dot, segment, UrlState, Outcome, Cursor, Step, Climb, at_root, lost, up,
  climb, drop_segment, keep_slash, end_path, go, start_query, start_fragment, on_escape, go_up,
  slash_of, dot_of, dot_dot_of, escape,
}
use gweb_plusplus.UrlPath.Machine.{finished, step_in, finish, round_in, round, normalise}

-- What a state holds back: a `/` is left to state 0.
abbrev pub pending : State → ℕ
pending dot = 1
pending dot_dot = 1
pending segment = 1
pending _ = 0

-- Twice the bytes left, and one more where a `/` may stay.
abbrev pub rounds_left : Cursor → ℕ
rounds_left k = 2 * length k.rest + pending k.path.state

pub escape_shorter :
    (xs rest : Bytes) (c : ℕ) → escape xs ≡ some (c, rest) → length rest + 2 ≡ length xs
unfolding escape
escape_shorter [] rest c e = cc
escape_shorter (x ∷ []) rest c e = cc
escape_shorter (x ∷ y ∷ xs) rest c e = ground arith

on_escape_falls :
    (p held : UrlState) (xs : Bytes) (e : Option (ℕ × Bytes)) (t : Cursor)
    → escape xs ≡ e
    → on_escape p held e ≡ more t
    → rounds_left t < 2 * suc (length xs) + pending p.state
unfolding on_escape
on_escape_falls p held xs none t d e = cc
on_escape_falls p held xs (some (c, rest)) t d e = ground (arith, escape_shorter xs rest c d)

go_up_falls :
    (u : Climb) (p : UrlState) (k : UrlState → Step) (n : ℕ) (t : Cursor)
    → ((q : UrlState) → k q ≡ more t → rounds_left t < n)
    → go_up u p k ≡ more t
    → rounds_left t < n
unfolding go_up
go_up_falls at_root p k n t h e = cc
go_up_falls lost p k n t h e = cc
go_up_falls (up out) p k n t h e = h (record p { out = out }) e

step_in_falls :
    (st : State) (p : UrlState) (c : ℕ) (rest : Bytes) (t : Cursor)
    → p.state ≡ st
    → step_in st p c rest ≡ more t
    → rounds_left t < 2 * suc (length rest) + pending st
unfolding step_in
step_in_falls slash p c rest t s e =
    ground (arith, on_escape_falls p (slash_of p) rest (escape rest) t refl)
step_in_falls dot p c rest t s e =
    ground (arith, on_escape_falls p (dot_of p) rest (escape rest) t refl)
step_in_falls dot_dot p c rest t s e =
    let n = 2 * suc (length rest) + 1 in
    ground (
      arith,
      on_escape_falls p (dot_dot_of p) rest (escape rest) t refl,
      go_up_falls (climb drop_segment p.out) p (λ q. go slash q (c ∷ rest)) n t
          (λ q d. ground arith),
      go_up_falls (climb keep_slash p.out) p (λ q. start_query q rest) n t (λ q d. ground arith),
      go_up_falls (climb keep_slash p.out) p (λ q. start_fragment q rest) n t (λ q d. ground arith),
    )
step_in_falls _ p c rest t s e = ground (arith, on_escape_falls p p rest (escape rest) t refl)

pub finish-ne-more : (st : State) (p : UrlState) (t : Cursor) → finish st p ≢ more t
unfolding finish go_up
finish-ne-more dot_dot p t e = on_climb (climb keep_slash p.out) e
  where
    on_climb : (u : Climb) → go_up u p (λ q. end_path q finished) ≡ more t → ⊥
    on_climb at_root d = cc
    on_climb lost d = cc
    on_climb (up out) d = ground arith
finish-ne-more _ p t e = ground arith

round_in_falls :
    (p : UrlState) (xs : Bytes) (t : Cursor)
    → round_in p xs ≡ more t
    → rounds_left t < 2 * length xs + pending p.state
unfolding round_in
round_in_falls p [] t e = absurd (finish-ne-more p.state p t e)
round_in_falls p (c ∷ rest) t e = step_in_falls p.state p c rest t refl e

pub round_falls : (k t : Cursor) → round k ≡ more t → rounds_left t < rounds_left k
round_falls k t = round_in_falls k.path k.rest t

-- The loop of `parse_path` ends, on any bytes.
pub normalise_total : (p : UrlState) (path : Bytes) → (o : Outcome) × (normalise p path ≡ some o)
unfolding normalise
normalise_total p path =
    loop_total round rounds_left round_falls (2 * length path + 2)
      (record { path = p; rest = path }) (pending_bound p.state)
  where
    pending_bound : (st : State) → 2 * length path + pending st < 2 * length path + 2
    pending_bound slash = omega arith
    pending_bound _ = omega arith
