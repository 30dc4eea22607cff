-- ===== src/Url/Bounds.antt =====
-- net/url_parser.cpp: the bounds of what `parse` leaves of a URL.
use gweb_plusplus.Base.{
  ℕ, suc, ◌+◌, ◌≤◌, ◌<◌, [], ◌∷◌, Option, none, some, Bool, true, false, zero, Bytes, length, drop,
  get_elem?, arith, ◌≡◌, ◌⊎◌, inl, inr, refl, ap, sym, ◌∙◌, subst,
}
use gweb_plusplus.UrlPath.{ushort}
use gweb_plusplus.UrlPath.Machine.{ParseResult, parse_path}
use gweb_plusplus.UrlPath.Normal.{IsGoodParse, parse_path-IsGoodParse}
use gweb_plusplus.Url.{
  State, UrlHead, fresh_head, Act, take_byte, refuse, start_path, step, Result, parse_error,
  root_path, in_path, finish, root_in, after_act, with_root, hand_over, parse_from, parse,
}

-- `k` bytes have been read: the writes have not overtaken them, and the lengths fit their types.
abbrev pub Inv : ℕ → UrlHead → Type 0
Inv k h = (length h.out ≤ k) × (h.host_len ≤ 255) × (h.url_port ≤ 65535) × (h.port ≤ 65535)

abbrev is_initial : State → Bool
is_initial State.initial = true
is_initial _ = false

-- At the byte `c`.
abbrev IsKept : ℕ → ℕ → Act → Type 0
IsKept k c (take_byte t) = Inv (suc k) t × (is_initial t.state ≡ false)
IsKept k c refuse = Unit
IsKept k c (start_path t len) = Inv k t × (c ≡ b'/') × (len ≡ ushort (length t.out))

-- Nothing has been written in the initial state.
abbrev IsFresh : UrlHead → Type 0
IsFresh h = (is_initial h.state ≡ false) ⊎ (length h.out ≡ 0)

step-IsKept :
    (st : State) (h : UrlHead) (c k : ℕ)
    → is_initial h.state ≡ is_initial st
    → IsFresh h
    → Inv k h
    → IsKept k c (step st h c)
unfolding step
step-IsKept State.initial h c k e o v = ground arith
step-IsKept State.port h c k e o v = ground arith
step-IsKept State.host h c k e o v = ground arith
step-IsKept _ h c k e o v = ground arith

abbrev IsEnd : ℕ → Option UrlHead → Type 0
IsEnd k none = Unit
IsEnd k (some h) = Inv k h

finish-IsEnd : (st : State) (h : UrlHead) (k : ℕ) → Inv k h → IsEnd k (finish st h)
unfolding finish
finish-IsEnd State.host h k v = ground arith
finish-IsEnd State.port h k v = ground arith
finish-IsEnd _ h k v = tt

drop-suc :
    (k : ℕ) (url : Bytes) (c : ℕ) (rest : Bytes) → drop k url ≡ c ∷ rest → drop (suc k) url ≡ rest
drop-suc zero [] c rest e = cc
drop-suc zero (d ∷ url) c rest e = let f : url ≡ rest = cc in f
drop-suc (suc k) [] c rest e = cc
drop-suc (suc k) (d ∷ url) c rest e = drop-suc k url c rest e

drop-at :
    (k : ℕ) (url : Bytes) (c : ℕ) (rest : Bytes) → drop k url ≡ c ∷ rest → get_elem? url k ≡ some c
drop-at zero [] c rest e = cc
drop-at zero (d ∷ url) c rest e = let f : d ≡ c = cc in ap some f
drop-at (suc k) [] c rest e = cc
drop-at (suc k) (d ∷ url) c rest e = drop-at k url c rest e

module _ {B : Type 0} (append : B → Bytes → Option B) (url : Bytes) (buf : B) where
  -- The path starts at the `/` with index `k`; `parse_path` is called on what is behind it.
  pub record IsPathAt (k : ℕ) (h : UrlHead) (r : ParseResult B) : Type 0 where
    pub slash : get_elem? url k ≡ some b'/'
    pub head : Inv k h
    pub called : parse_path append (drop (suc k) url) (ushort (length h.out)) buf ≡ some r
    pub good : IsGoodParse r

  -- What a result says.
  abbrev pub IsParsed : Result B → Type 0
  IsParsed (root_path h len b) = Inv (length url) h × (len ≡ ushort (length h.out))
  IsParsed (in_path h r) = (k : ℕ) × IsPathAt k h r
  IsParsed _ = Unit

  root_in-IsParsed : (h : UrlHead) (o : Option B) → Inv (length url) h → IsParsed (root_in h o)
  unfolding root_in
  root_in-IsParsed h none v = tt
  root_in-IsParsed h (some b) v = (v, refl)

  with_root-IsParsed :
      (o : Option UrlHead) → IsEnd (length url) o → IsParsed (with_root append buf o)
  unfolding with_root
  with_root-IsParsed none v = tt
  with_root-IsParsed (some h) v = root_in-IsParsed h (append buf (b'/' ∷ [])) v

  hand_over-IsParsed :
      (h : UrlHead) (o : Option (ParseResult B)) (r : Result B)
      → ((q : ParseResult B) → o ≡ some q → (k : ℕ) × IsPathAt k h q)
      → hand_over h o ≡ some r
      → IsParsed r
  unfolding hand_over
  hand_over-IsParsed h none r good e = cc
  hand_over-IsParsed h (some q) r good e =
      let d : in_path h q ≡ r = cc in subst IsParsed d (good q refl)

  after_act-IsParsed :
      (k c : ℕ) (a : Act) (rest : Bytes) (loop : UrlHead → Option (Result B)) (r : Result B)
      → drop k url ≡ c ∷ rest
      → length rest < 65534
      → IsKept k c a
      → ((h : UrlHead) → Inv (suc k) h → IsFresh h → loop h ≡ some r → IsParsed r)
      → after_act append a rest buf loop ≡ some r
      → IsParsed r
  unfolding after_act
  after_act-IsParsed k c (take_byte h) rest loop r at short v l e = l h v.0 (inl v.1) e
  after_act-IsParsed k c refuse rest loop r at short v l e =
      let d : parse_error ≡ r = cc in subst IsParsed d tt
  after_act-IsParsed k c (start_path h len) rest loop r at short v l e =
      hand_over-IsParsed h (parse_path append rest len buf) r
        (λ q f. (
          k,
          record {
            slash = drop-at k url c rest at ∙ ap some v.1;
            head = v.0;
            called =
                ap (λ s. parse_path append s (ushort (length h.out)) buf) (drop-suc k url c rest at)
                ∙ ap (λ n. parse_path append rest n buf) (sym v.2)
                ∙ f;
            good = parse_path-IsGoodParse append rest len buf q short f;
          },
        ))
        e

  parse_from-IsParsed :
      (k : ℕ) (rest : Bytes) (h : UrlHead) (r : Result B)
      → drop k url ≡ rest
      → k + length rest ≡ length url
      → Inv k h
      → IsFresh h
      → length rest < 65535
      → parse_from append rest buf h ≡ some r
      → IsParsed r
  unfolding parse_from
  parse_from-IsParsed k [] h r at len v o lt e =
      let d : with_root append buf (finish h.state h) ≡ r = cc in
      let f : k ≡ length url = omega arith in
      subst IsParsed d (
        with_root-IsParsed (finish h.state h)
          (subst (λ m. IsEnd m (finish h.state h)) f (finish-IsEnd h.state h k v)))
  parse_from-IsParsed k (c ∷ rest) h r at len v o lt e =
      after_act-IsParsed k c (step h.state h c) rest (parse_from append rest buf) r at (omega arith)
        (step-IsKept h.state h c k refl o v)
        (λ t w f g.
          parse_from-IsParsed (suc k) rest t r (drop-suc k url c rest at) (omega arith) w f
            (omega arith) g)
        e

  -- On a URL of fewer than 65535 bytes, where `url_parser::parse` returns: the host is at most 255 bytes long, and the
  -- port fits 16 bits. Where it goes on to a path, a `/` of the URL starts it; the bytes of the head have not
  -- overtaken those in front of the `/`; `parse_path` is called on those behind it, with the length of the head, never
  -- steps back past the start of the path, and on success leaves a normal path. Where the URL has no path, the bytes
  -- of the head have not overtaken those of the URL.
  pub parse-IsParsed :
      (r : Result B) → length url < 65535 → parse append url buf ≡ some r → IsParsed r
  unfolding parse
  parse-IsParsed r lt e =
      parse_from-IsParsed 0 url fresh_head r refl (omega arith)
        (omega arith, omega arith, omega arith, omega arith) (inr refl) lt e
