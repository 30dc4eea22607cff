-- ===== src/UrlPath/Steps.antt =====
-- net/url_parser.cpp: what each round of `parse_path` makes of what its state knows.
use gweb_plusplus.Base.{ℕ, ◌+◌, ◌<◌, Bytes, [], ◌∷◌, ◌≡◌, refl, ◌∙◌, inl, inr, some, arith, length}
use gweb_plusplus.UrlPath.{
  State, slash, dot, dot_dot, segment, query, fragment, UrlState, climb, drop_segment, keep_slash,
  go, start_query, start_fragment, end_path, slash_of, dot_of, dot_dot_of, escape,
}
use gweb_plusplus.UrlPath.Machine.{since, finished, step_in, finish, round_in}
use gweb_plusplus.UrlPath.Segments.{
  IsPlain, IsSegments, IsOpen, IsOpen-IsSegments, IsDirectory-slash, IsOpen-cons, IsOpen-slash,
  IsOpen-dot, IsOpen-dot_dot, climb-ne-lost, climb-drop_segment, climb-keep_slash,
}
use gweb_plusplus.UrlPath.InPlace.{climb_keep_shorter}
use gweb_plusplus.UrlPath.Invariant.{
  IsResult, Inv, Post, IsResult-cons, start_query-Post, start_fragment-Post, finished-Post,
  on_escape-Post, go_up-Post,
}

pub step_slash-Post :
    (p : UrlState) (c : ℕ) (rest : Bytes)
    → p.state ≡ slash
    → IsSegments p.out
    → length p.out + 1 < 65536
    → Post (step_in slash p c rest)
unfolding step_in
step_slash-Post p c rest s v lt = ground (
  arith,
  on_escape-Post p (slash_of p) (escape rest) (rw s v) (λ d a b. IsOpen-slash d a b v),
  start_query-Post (slash_of p) rest (inr (IsDirectory-slash v)),
  start_fragment-Post (slash_of p) rest (inr (IsDirectory-slash v)),
  IsOpen-slash {o = p.out} c,
)

pub step_dot-Post :
    (p : UrlState) (c : ℕ) (rest : Bytes)
    → p.state ≡ dot
    → IsSegments p.out
    → length p.out + 1 < 65536
    → Post (step_in dot p c rest)
unfolding step_in
step_dot-Post p c rest s v lt = ground (
  arith,
  on_escape-Post p (dot_of p) (escape rest) (rw s v) (λ d a b. IsOpen-dot d a b v),
  start_query-Post (slash_of p) rest (inr (IsDirectory-slash v)),
  start_fragment-Post (slash_of p) rest (inr (IsDirectory-slash v)),
  IsOpen-dot {o = p.out} c,
)

pub step_dot_dot-Post :
    (p : UrlState) (c : ℕ) (rest : Bytes)
    → p.state ≡ dot_dot
    → IsSegments p.out
    → length p.out + 1 < 65536
    → Post (step_in dot_dot p c rest)
unfolding step_in
step_dot_dot-Post p c rest s v lt =
    let shorter = climb_keep_shorter p.out in
    ground (
      arith,
      on_escape-Post p (dot_dot_of p) (escape rest) (rw s v) (λ d a b. IsOpen-dot_dot d a v),
      go_up-Post (climb drop_segment p.out) p (λ q. go slash q (c ∷ rest)) (climb-ne-lost v).0
          (λ o u. climb-drop_segment v u),
      go_up-Post (climb keep_slash p.out) p (λ q. start_query q rest) (climb-ne-lost v).1
          (λ o u.
            start_query-Post (record p { out = o }) rest (inr (climb-keep_slash v u))
              (omega (arith, shorter o u))),
      go_up-Post (climb keep_slash p.out) p (λ q. start_fragment q rest) (climb-ne-lost v).1
          (λ o u.
            start_fragment-Post (record p { out = o }) rest (inr (climb-keep_slash v u))
              (omega (arith, shorter o u))),
      IsOpen-dot_dot {o = p.out} c,
    )

pub step_segment-Post :
    (p : UrlState) (c : ℕ) (rest : Bytes)
    → p.state ≡ segment
    → IsOpen p.out
    → length p.out + 1 < 65536
    → Post (step_in segment p c rest)
unfolding step_in
step_segment-Post p c rest s v lt = ground (
  arith,
  on_escape-Post p p (escape rest) (rw s v) (λ d a b. IsOpen-cons d a v),
  start_query-Post p rest (inl v),
  start_fragment-Post p rest (inl v),
  IsOpen-IsSegments v,
  λ (h : IsPlain c). IsOpen-cons c h v,
)

pub step_query-Post :
    (p : UrlState) (c : ℕ) (rest : Bytes) → IsResult p → Post (step_in query p c rest)
unfolding step_in
step_query-Post p c rest v =
    let n = since p.out p.query_at in
    ground (
      arith,
      IsResult-cons {p = p} {q = record p { state = query; out = c ∷ p.out }} c refl refl v,
      IsResult-cons {p = p}
          {q = record p {
            state = fragment;
            out = c ∷ p.out;
            query_len = n;
            fragment_at = some (length p.out);
          }}
          c refl refl v,
    )

pub step_fragment-Post :
    (p : UrlState) (c : ℕ) (rest : Bytes) → IsResult p → Post (step_in fragment p c rest)
unfolding step_in
step_fragment-Post p c rest v = ground (
  arith,
  IsResult-cons {p = p} {q = record p { state = fragment; out = c ∷ p.out }} c refl refl v,
)

pub step_in-Post :
    (st : State) (p : UrlState) (c : ℕ) (rest : Bytes)
    → p.state ≡ st
    → Inv st p
    → length p.out + 1 < 65536
    → Post (step_in st p c rest)
step_in-Post slash p c rest s v lt = step_slash-Post p c rest s v lt
step_in-Post dot p c rest s v lt = step_dot-Post p c rest s v lt
step_in-Post dot_dot p c rest s v lt = step_dot_dot-Post p c rest s v lt
step_in-Post segment p c rest s v lt = step_segment-Post p c rest s v lt
step_in-Post query p c rest s v lt = step_query-Post p c rest v
step_in-Post fragment p c rest s v lt = step_fragment-Post p c rest v

-- Only the length of the query or of the fragment is set.
pub IsResult-same :
    {p q : UrlState} → q.out ≡ p.out → q.path_len ≡ p.path_len → IsResult p → IsResult q
IsResult-same e d r = record {
  behind = r.behind;
  path = r.path;
  joined = e ∙ r.joined;
  normal = r.normal;
  counted = d ∙ r.counted;
  bounded = omega (arith, d, r.bounded);
}

pub finish-Post :
    (st : State) (p : UrlState) → Inv st p → length p.out + 1 < 65536 → Post (finish st p)
unfolding finish
finish-Post slash p v lt = finished-Post (slash_of p) (inr (IsDirectory-slash v)) (omega arith)
finish-Post dot p v lt = finished-Post (slash_of p) (inr (IsDirectory-slash v)) (omega arith)
finish-Post dot_dot p v lt =
    go_up-Post (climb keep_slash p.out) p (λ q. end_path q finished) (climb-ne-lost v).1
      (λ o u.
        finished-Post (record p { out = o }) (inr (climb-keep_slash v u))
          (omega (arith, climb_keep_shorter p.out o u)))
finish-Post segment p v lt = finished-Post p (inl v) (omega arith)
finish-Post query p v lt =
    ground (
      arith,
      IsResult-same {p = p} {q = record p { query_len = since p.out p.query_at }} refl refl v,
    )
finish-Post fragment p v lt = ground (
  arith,
  IsResult-same {p = p} {q = record p { fragment_len = since p.out p.fragment_at }} refl refl v,
)

pub round_in-Post :
    (p : UrlState) (xs : Bytes) → Inv p.state p → length p.out + 1 < 65536 → Post (round_in p xs)
unfolding round_in
round_in-Post p [] v lt = finish-Post p.state p v lt
round_in-Post p (c ∷ rest) v lt = step_in-Post p.state p c rest refl v lt
