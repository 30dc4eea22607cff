-- ===== src/UrlPath/InPlace.antt =====
-- net/url_parser.cpp: the rewriting in place, with `out` behind `in`.
use gweb_plusplus.Base.{
  ℕ, suc, ◌+◌, ◌*◌, ◌<◌, ◌≤◌, Bytes, [], ◌∷◌, ◌≡◌, ◌≢◌, refl, Option, none, some, arith, length,
  more, stop, ◌==◌, if◌then◌else◌, loop_inv, Runs, here, after,
}
use gweb_plusplus.UrlPath.{
  State, slash, dot, dot_dot, segment, UrlState, fresh, Outcome, success, Cursor, Step, Climb,
  at_root, lost, up, climb, landed, drop_segment, keep_slash, end_path, go, start_query,
  start_fragment, on_escape, go_up, slash_of, dot_of, dot_dot_of, escape,
}
use gweb_plusplus.UrlPath.Machine.{finished, step_in, finish, round_in, round, normalise}
use gweb_plusplus.UrlPath.Rounds.{escape_shorter, finish-ne-more}

-- The bytes that a state has read and not written: in state 0 the `/`, unless it is read again.
abbrev pub held : State → Bytes → ℕ
held slash [] = 1
held slash (c ∷ rest) = if c == b'/' then 0 else 1
held dot _ = 2
held dot_dot _ = 3
held _ _ = 0

-- The bytes written, those held back and those to be read.
abbrev pub extent : Cursor → ℕ
extent k = length k.path.out + held k.path.state k.rest + length k.rest

pub held-le : (xs : Bytes) → held slash xs ≤ 1
held-le [] = omega arith
held-le (c ∷ xs) = ground arith

on_escape-extent :
    (p held' : UrlState) (xs : Bytes) (e : Option (ℕ × Bytes)) (n m : ℕ) (t : Cursor)
    → escape xs ≡ e
    → ((ys : Bytes) → held p.state ys ≤ m)
    → length held'.out ≤ length p.out + m
    → length p.out + m + suc (length xs) ≤ n
    → on_escape p held' e ≡ more t
    → extent t ≤ n
unfolding on_escape
on_escape-extent p held' xs none n m t d a h le e = cc
on_escape-extent p held' xs (some (c, rest)) n m t d a h le e =
    ground (arith, escape_shorter xs rest c d, a (c ∷ rest))

drop_segment_shorter : (xs o : Bytes) → drop_segment xs ≡ some o → length o < length xs
unfolding drop_segment
drop_segment_shorter [] o e = cc
drop_segment_shorter (c ∷ xs) o e = ground (arith, drop_segment_shorter xs o)

keep_slash_shorter : (xs o : Bytes) → keep_slash xs ≡ some o → length o ≤ length xs
unfolding keep_slash
keep_slash_shorter [] o e = cc
keep_slash_shorter (c ∷ xs) o e = ground (arith, keep_slash_shorter xs o)

landed-up : (r : Option Bytes) (o : Bytes) → landed r ≡ up o → r ≡ some o
unfolding landed
landed-up none o e = cc
landed-up (some x) o e = cc

pub climb_drop_shorter : (xs o : Bytes) → climb drop_segment xs ≡ up o → length o < length xs
unfolding climb
climb_drop_shorter [] o e = cc
climb_drop_shorter (c ∷ xs) o e = drop_segment_shorter (c ∷ xs) o (landed-up _ o e)

pub climb_keep_shorter : (xs o : Bytes) → climb keep_slash xs ≡ up o → length o ≤ length xs
unfolding climb
climb_keep_shorter [] o e = cc
climb_keep_shorter (c ∷ xs) o e = keep_slash_shorter (c ∷ xs) o (landed-up _ o e)

go_up-extent :
    (u : Climb) (p : UrlState) (k : UrlState → Step) (n m : ℕ) (t : Cursor)
    → ((o : Bytes) → u ≡ up o → length o ≤ m)
    → ((q : UrlState) → length q.out ≤ m → k q ≡ more t → extent t ≤ n)
    → go_up u p k ≡ more t
    → extent t ≤ n
unfolding go_up
go_up-extent at_root p k n m t s h e = cc
go_up-extent lost p k n m t s h e = cc
go_up-extent (up out) p k n m t s h e = h (record p { out = out }) (s out refl) e

step_in-extent :
    (st : State) (p : UrlState) (c : ℕ) (rest : Bytes) (n : ℕ) (t : Cursor)
    → p.state ≡ st
    → length p.out + held st (c ∷ rest) + suc (length rest) ≤ n
    → step_in st p c rest ≡ more t
    → extent t ≤ n
unfolding step_in
step_in-extent slash p c rest n t s le e = ground (
  arith,
  held-le rest,
  on_escape-extent p (slash_of p) rest (escape rest) n 1 t refl (λ ys. rw s (held-le ys)),
)
step_in-extent dot p c rest n t s le e = ground (
  arith,
  held-le (c ∷ rest),
  on_escape-extent p (dot_of p) rest (escape rest) n 2 t refl (λ ys. rw s (omega arith)),
)
step_in-extent dot_dot p c rest n t s le e =
    let m = length p.out in
    ground (
      arith,
      on_escape-extent p (dot_dot_of p) rest (escape rest) n 3 t refl (λ ys. rw s (omega arith)),
      go_up-extent (climb drop_segment p.out) p (λ q. go slash q (c ∷ rest)) n m t
          (λ o u. omega (arith, climb_drop_shorter p.out o u))
          (λ q h d. ground (arith, held-le (c ∷ rest))),
      go_up-extent (climb keep_slash p.out) p (λ q. start_query q rest) n m t
          (climb_keep_shorter p.out) (λ q h d. ground arith),
      go_up-extent (climb keep_slash p.out) p (λ q. start_fragment q rest) n m t
          (climb_keep_shorter p.out) (λ q h d. ground arith),
    )
step_in-extent segment p c rest n t s le e =
    ground (arith, on_escape-extent p p rest (escape rest) n 0 t refl (λ ys. rw s (omega arith)))
step_in-extent _ p c rest n t s le e = ground arith

round_in-extent :
    (p : UrlState) (xs : Bytes) (n : ℕ) (t : Cursor)
    → extent (record { path = p; rest = xs }) ≤ n
    → round_in p xs ≡ more t
    → extent t ≤ n
unfolding round_in
round_in-extent p [] n t le e = absurd (finish-ne-more p.state p t e)
round_in-extent p (c ∷ rest) n t le e = step_in-extent p.state p c rest n t refl le e

pub round-extent : (n : ℕ) (k t : Cursor) → extent k ≤ n → round k ≡ more t → extent t ≤ n
round-extent n k t le e = round_in-extent k.path k.rest n t le e

-- The loop of `parse_path` at its start, behind the first `/`.
abbrev pub start : Bytes → Cursor
start path = record { path = fresh; rest = path }

-- Whatever the path, in every state that the loop of `parse_path` reaches, the bytes written, with
-- those that the state still has to write, are no more than the bytes read: no write overtakes a
-- byte that is still to be read, though both are in one buffer.
pub Runs-extent :
    (path : Bytes) (k : Cursor) → Runs round (start path) k → extent k ≤ suc (length path)
Runs-extent path k here = omega (arith, held-le path)
Runs-extent path k (after {t} r e) = round-extent (suc (length path)) t k (Runs-extent path t r) e

-- The bytes of a result.
abbrev pub OutLe : ℕ → Outcome → Type 0
OutLe n (success p) = length p.out ≤ n
OutLe n _ = Unit

go_up-eq-success :
    (u : Climb) (p q : UrlState) (k : UrlState → Step)
    → go_up u p k ≡ stop (success q)
    → (o : Bytes) × (u ≡ up o) × (k (record p { out = o }) ≡ stop (success q))
unfolding go_up
go_up-eq-success at_root p q k e = cc
go_up-eq-success lost p q k e = cc
go_up-eq-success (up out) p q k e = (out, refl, e)

finish-fits :
    (st : State) (p q : UrlState) (n : ℕ)
    → length p.out + held st [] ≤ n
    → finish st p ≡ stop (success q)
    → length q.out ≤ n
unfolding finish
finish-fits dot_dot p q n le e =
    let (o, u, e') = go_up-eq-success (climb keep_slash p.out) p q (λ r. end_path r finished) e in
    ground (arith, climb_keep_shorter p.out o u)
finish-fits slash p q n le e = ground arith
finish-fits _ p q n le e = ground arith

on_escape-ne-success :
    (p h q : UrlState) (e : Option (ℕ × Bytes)) → on_escape p h e ≢ stop (success q)
unfolding on_escape
on_escape-ne-success p h q none e = cc
on_escape-ne-success p h q (some (c, rest)) e = ground arith

go_up-ne-success :
    (u : Climb) (p q : UrlState) (k : UrlState → Step)
    → ((r : UrlState) → k r ≢ stop (success q))
    → go_up u p k ≢ stop (success q)
go_up-ne-success u p q k h e =
    let (o, d, e') = go_up-eq-success u p q k e in h (record p { out = o }) e'

step_in-ne-success :
    (st : State) (p q : UrlState) (c : ℕ) (rest : Bytes) → step_in st p c rest ≢ stop (success q)
unfolding step_in
step_in-ne-success slash p q c rest e =
    ground (arith, on_escape-ne-success p (slash_of p) q (escape rest))
step_in-ne-success dot p q c rest e =
    ground (arith, on_escape-ne-success p (dot_of p) q (escape rest))
step_in-ne-success dot_dot p q c rest e = ground (
  arith,
  on_escape-ne-success p (dot_dot_of p) q (escape rest),
  go_up-ne-success (climb drop_segment p.out) p q (λ r. go slash r (c ∷ rest)) (λ r d. cc),
  go_up-ne-success (climb keep_slash p.out) p q (λ r. start_query r rest) (λ r d. ground arith),
  go_up-ne-success (climb keep_slash p.out) p q (λ r. start_fragment r rest) (λ r d. ground arith),
)
step_in-ne-success _ p q c rest e = ground (arith, on_escape-ne-success p p q (escape rest))

round_in-fits :
    (p : UrlState) (xs : Bytes) (q : UrlState) (n : ℕ)
    → extent (record { path = p; rest = xs }) ≤ n
    → round_in p xs ≡ stop (success q)
    → length q.out ≤ n
unfolding round_in
round_in-fits p [] q n le e = finish-fits p.state p q n (omega arith) e
round_in-fits p (c ∷ rest) q n le e = absurd (step_in-ne-success p.state p q c rest e)

-- On a success the bytes written fit the bytes of the path, so the closing NUL takes the place of
-- the old one at most.
pub normalise-fits :
    (path : Bytes) (q : UrlState)
    → normalise fresh path ≡ some (success q)
    → length q.out ≤ suc (length path)
unfolding normalise
normalise-fits path q e =
    loop_inv round (λ k. extent k ≤ suc (length path)) (OutLe (suc (length path)))
      (round-extent (suc (length path))) post (2 * length path + 2) (start path)
      (omega (arith, held-le path)) e
  where
    post :
        (k : Cursor) (o : Outcome)
        → extent k ≤ suc (length path)
        → round k ≡ stop o
        → OutLe (suc (length path)) o
    post k (success r) le d = round_in-fits k.path k.rest r (suc (length path)) le d
    post k _ le d = tt
