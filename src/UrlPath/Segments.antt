-- ===== src/UrlPath/Segments.antt =====
-- What a normalised path looks like, and the ways back over it. The lists are read backwards, as
-- `out` is; the names that a path may not have read the same both ways.
use gweb_plusplus.Base.{
  ℕ, Bytes, false, [], ◌∷◌, ◌++◌, ◌≡◌, ◌≢◌, refl, sym, ap, ◌∙◌, ◌⊎◌, inl, inr, Option, some, arith,
  ◌==◌, All, subst,
}
use gweb_plusplus.UrlPath.{at_root, lost, up, climb, landed, drop_segment, keep_slash}

abbrev pub IsPlain : ℕ → Type 0
IsPlain c = (c == b'/') ≡ false

-- The name of a segment: no `/` in it, not empty, not `.` and not `..`.
abbrev pub IsName : Bytes → Type 0
IsName name = All IsPlain name × (name ≢ []) × (name ≢ b'.' ∷ []) × (name ≢ b'.' ∷ b'.' ∷ [])

-- Segments, each behind a `/`.
pub data IsSegments : Bytes → Type 0 where
  root : IsSegments []
  below :
      {o : Bytes} (name out : Bytes)
      → IsName name
      → IsSegments out
      → o ≡ name ++ (b'/' ∷ out)
      → IsSegments o

-- One segment at least.
pub record IsOpen (o : Bytes) : Type 0 where
  pub name : Bytes
  pub parent : Bytes
  pub named : IsName name
  pub above : IsSegments parent
  pub joined : o ≡ name ++ (b'/' ∷ parent)

-- A `/` behind segments, or none: the root directory.
pub record IsDirectory (o : Bytes) : Type 0 where
  pub parent : Bytes
  pub above : IsSegments parent
  pub joined : o ≡ b'/' ∷ parent

-- A normal path.
abbrev pub IsNormal : Bytes → Type 0
IsNormal o = IsOpen o ⊎ IsDirectory o

pub IsOpen-IsSegments : {o : Bytes} → IsOpen o → IsSegments o
IsOpen-IsSegments h = below h.name h.parent h.named h.above h.joined

pub IsDirectory-slash : {o : Bytes} → IsSegments o → IsDirectory (b'/' ∷ o)
IsDirectory-slash {o} h = record { parent = o; above = h; joined = refl }

-- Another byte of a segment.
pub IsOpen-cons : {o : Bytes} (c : ℕ) → IsPlain c → IsOpen o → IsOpen (c ∷ o)
IsOpen-cons c plain h = record {
  name = c ∷ h.name;
  parent = h.parent;
  named = ((plain, h.named.0), (λ e. cc), (λ e. h.named.1 (cc)), (λ e. h.named.2 (cc)));
  above = h.above;
  joined = ap (◌∷◌ c) h.joined;
}

-- The first byte of a segment, behind a `/`, a `/.` and a `/..`.
pub IsOpen-slash :
    {o : Bytes} (c : ℕ) → IsPlain c → (c == b'.') ≡ false → IsSegments o → IsOpen (c ∷ b'/' ∷ o)
IsOpen-slash {o} c plain no_dot h = record {
  name = c ∷ [];
  parent = o;
  named = ((plain, tt), (λ e. cc), (λ e. ground arith), (λ e. cc));
  above = h;
  joined = refl;
}

pub IsOpen-dot :
    {o : Bytes} (c : ℕ)
    → IsPlain c
    → (c == b'.') ≡ false
    → IsSegments o
    → IsOpen (c ∷ b'.' ∷ b'/' ∷ o)
IsOpen-dot {o} c plain no_dot h = record {
  name = c ∷ b'.' ∷ [];
  parent = o;
  named = ((plain, (refl, tt)), (λ e. cc), (λ e. cc), (λ e. ground arith));
  above = h;
  joined = refl;
}

pub IsOpen-dot_dot :
    {o : Bytes} (c : ℕ) → IsPlain c → IsSegments o → IsOpen (c ∷ b'.' ∷ b'.' ∷ b'/' ∷ o)
IsOpen-dot_dot {o} c plain h = record {
  name = c ∷ b'.' ∷ b'.' ∷ [];
  parent = o;
  named = ((plain, (refl, (refl, tt))), (λ e. cc), (λ e. cc), (λ e. cc));
  above = h;
  joined = refl;
}

drop_segment-name :
    (name out : Bytes) → All IsPlain name → drop_segment (name ++ (b'/' ∷ out)) ≡ some out
unfolding drop_segment
drop_segment-name [] out h = refl
drop_segment-name (c ∷ name) out (p, h) = rw p (drop_segment-name name out h)

keep_slash-name :
    (name out : Bytes) → All IsPlain name → keep_slash (name ++ (b'/' ∷ out)) ≡ some (b'/' ∷ out)
unfolding keep_slash
keep_slash-name [] out h = refl
keep_slash-name (c ∷ name) out (p, h) = rw p (keep_slash-name name out h)

climb-name :
    (back : Bytes → Option Bytes) (name out : Bytes)
    → climb back (name ++ (b'/' ∷ out)) ≡ landed (back (name ++ (b'/' ∷ out)))
unfolding climb
climb-name back [] out = refl
climb-name back (c ∷ name) out = refl

-- The ways back from segments: at the root, or up by one segment.
pub climb-IsSegments :
    {o : Bytes}
    → IsSegments o
    → ((climb drop_segment o ≡ at_root) × (climb keep_slash o ≡ at_root))
      ⊎ ((out : Bytes) × IsSegments out
          × (climb drop_segment o ≡ up out)
          × (climb keep_slash o ≡ up (b'/' ∷ out)))
unfolding climb landed
climb-IsSegments root = inl (refl, refl)
climb-IsSegments (below name out h s e) = inr (
  out,
  s,
  ap (climb drop_segment) e
      ∙ climb-name drop_segment name out
      ∙ ap landed (drop_segment-name name out h.0),
  ap (climb keep_slash) e
      ∙ climb-name keep_slash name out
      ∙ ap landed (keep_slash-name name out h.0),
)

pub climb-ne-lost :
    {o : Bytes} → IsSegments o → (climb drop_segment o ≢ lost) × (climb keep_slash o ≢ lost)
climb-ne-lost h = elim (climb-IsSegments h) [
  | inl (d, k) ↦ ((λ e. cc), (λ e. cc))
  | inr (out, s, d, k) ↦ ((λ e. cc), (λ e. cc))
]

up-injective : {a b : Bytes} → up a ≡ up b → a ≡ b
up-injective e = cc

pub climb-drop_segment : {o x : Bytes} → IsSegments o → climb drop_segment o ≡ up x → IsSegments x
climb-drop_segment {o} {x} h e = elim (climb-IsSegments h) [
  | inl (d, k) ↦ absurd (ground arith)
  | inr (out, s, d, k) ↦ subst IsSegments (up-injective (sym d ∙ e)) s
]

pub climb-keep_slash : {o x : Bytes} → IsSegments o → climb keep_slash o ≡ up x → IsDirectory x
climb-keep_slash {o} {x} h e = elim (climb-IsSegments h) [
  | inl (d, k) ↦ absurd (ground arith)
  | inr (out, s, d, k) ↦ subst IsDirectory (up-injective (sym k ∙ e)) (IsDirectory-slash s)
]
