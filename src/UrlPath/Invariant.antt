-- ===== src/UrlPath/Invariant.antt =====
-- What each state of `parse_path` knows of the bytes written, and what its common steps make of it.
use gweb_plusplus.Base.{
  ℕ, ◌<◌, ◌≤◌, Bytes, false, [], ◌∷◌, ◌++◌, ◌≡◌, ◌≢◌, refl, ap, ◌∙◌, inl, inr, Option, none, some,
  arith, length, ltb, ◌==◌, ◌||◌, more, stop, Bool-cases, ltb→le,
}
use gweb_plusplus.UrlPath.{
  State, slash, dot, dot_dot, segment, query, fragment, UrlState, parse_error, forbidden, underrun,
  success, Step, Climb, at_root, lost, up, go, put, ushort, max_len, start_query, start_fragment,
  end_path, on_escape, go_up,
}
use gweb_plusplus.UrlPath.Machine.{finished}
use gweb_plusplus.UrlPath.Segments.{IsPlain, IsSegments, IsOpen, IsNormal}

-- The first `path_len` bytes written are a normal path, and what stands behind them is the query and
-- the fragment. (Backwards, as `out` is.)
pub record IsResult (p : UrlState) : Type 0 where
  pub behind : Bytes
  pub path : Bytes
  pub joined : p.out ≡ behind ++ path
  pub normal : IsNormal path
  pub counted : p.path_len ≡ length path
  pub bounded : p.path_len ≤ 4096

-- What each state knows of the bytes written.
abbrev pub Inv : State → UrlState → Type 0
Inv slash p = IsSegments p.out
Inv dot p = IsSegments p.out
Inv dot_dot p = IsSegments p.out
Inv segment p = IsOpen p.out
Inv query p = IsResult p
Inv fragment p = IsResult p

abbrev pub Post : Step → Type 0
Post (more t) = Inv t.path.state t.path
Post (stop (success q)) = IsResult q
Post (stop underrun) = ⊥
Post (stop parse_error) = Unit
Post (stop forbidden) = Unit

-- One more byte behind the path; the members but `path_len` may change.
pub IsResult-cons :
    {p q : UrlState} (c : ℕ) → q.out ≡ c ∷ p.out → q.path_len ≡ p.path_len → IsResult p → IsResult q
IsResult-cons c e d r = record {
  behind = c ∷ r.behind;
  path = r.path;
  joined = e ∙ ap (◌∷◌ c) r.joined;
  normal = r.normal;
  counted = d ∙ r.counted;
  bounded = omega (arith, d, r.bounded);
}

-- The end of a normal path that is short enough for its length not to wrap.
pub end_path-Post :
    (p : UrlState) (k : UrlState → Step)
    → IsNormal p.out
    → length p.out < 65536
    → ((q : UrlState) → q.out ≡ p.out → IsResult q → Post (k q))
    → Post (end_path p k)
end_path-Post p k h lt f = elim (Bool-cases (ltb max_len (ushort (length p.out)))) [
  | inl long ↦ rw long tt
  | inr short ↦ rw short (
      f (record p { path_len = ushort (length p.out) }) refl
        (record {
          behind = [];
          path = p.out;
          joined = refl;
          normal = h;
          counted = omega arith;
          bounded = ltb→le max_len (ushort (length p.out)) short;
        }))
]

pub start_query-Post :
    (p : UrlState) (rest : Bytes)
    → IsNormal p.out
    → length p.out < 65536
    → Post (start_query p rest)
start_query-Post p rest h lt =
    end_path-Post p (λ q. go query (put b'?' (record q { query_at = some (length q.out) })) rest) h
      lt (λ q e r. IsResult-cons b'?' refl refl r)

pub start_fragment-Post :
    (p : UrlState) (rest : Bytes)
    → IsNormal p.out
    → length p.out < 65536
    → Post (start_fragment p rest)
start_fragment-Post p rest h lt =
    end_path-Post p
      (λ q. go fragment (put b'#' (record q { fragment_at = some (length q.out) })) rest) h lt
      (λ q e r. IsResult-cons b'#' refl refl r)

pub finished-Post :
    (p : UrlState) → IsNormal p.out → length p.out < 65536 → Post (end_path p finished)
finished-Post p h lt = end_path-Post p finished h lt (λ q e r. r)

pub on_escape-Post :
    (p held' : UrlState) (e : Option (ℕ × Bytes))
    → Inv p.state p
    → ((c : ℕ) → IsPlain c → (c == b'.') ≡ false → IsOpen (c ∷ held'.out))
    → Post (on_escape p held' e)
unfolding on_escape
on_escape-Post p held' none v h = tt
on_escape-Post p held' (some (c, rest)) v h = elim (Bool-cases (c == b'.' || c == b'/')) [
  | inl again ↦ rw again v
  | inr plain ↦ rw plain (h c (ground arith) (ground arith))
]

pub go_up-Post :
    (u : Climb) (p : UrlState) (k : UrlState → Step)
    → u ≢ lost
    → ((o : Bytes) → u ≡ up o → Post (k (record p { out = o })))
    → Post (go_up u p k)
unfolding go_up
go_up-Post at_root p k h f = tt
go_up-Post lost p k h f = absurd (h refl)
go_up-Post (up out) p k h f = f out refl
