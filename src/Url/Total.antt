-- ===== src/Url/Total.antt =====
-- net/url_parser.cpp: the return of `parse`.
use gweb_plusplus.Base.{ℕ, [], ◌∷◌, Option, none, some, Bytes, ◌≡◌, refl}
use gweb_plusplus.UrlPath.{fresh, Outcome, success, parse_error, forbidden, underrun}
use gweb_plusplus.UrlPath.Machine.{ParseResult, finish_parse, parse_appended, parse_path}
use gweb_plusplus.UrlPath.Rounds.{normalise_total}
use gweb_plusplus.Url.{
  UrlHead, Act, take_byte, refuse, start_path, Result, hand_over, after_act, parse_from, parse,
  fresh_head,
}

-- A result has been returned.
abbrev pub Returns {ℓ} : {A : Type ℓ} → Option A → Type ℓ
Returns {A = A} o = (a : A) × (o ≡ some a)

finish_parse-Returns :
    {B : Type 0} (len : ℕ) (buf : B) (o : Outcome) → Returns (finish_parse len buf (some o))
unfolding finish_parse
finish_parse-Returns len buf (success p) = (_, refl)
finish_parse-Returns len buf parse_error = (_, refl)
finish_parse-Returns len buf forbidden = (_, refl)
finish_parse-Returns len buf underrun = (_, refl)

parse_appended-Returns :
    {B : Type 0} (path : Bytes) (len : ℕ) (o : Option B) → Returns (parse_appended path len o)
unfolding parse_appended
parse_appended-Returns path len none = (_, refl)
parse_appended-Returns path len (some buf) =
    let (o, e) = normalise_total fresh path in rw e (finish_parse-Returns len buf o)

hand_over-Returns :
    {B : Type 0} (h : UrlHead) (o : Option (ParseResult B)) → Returns o → Returns (hand_over h o)
unfolding hand_over
hand_over-Returns h none (r, e) = cc
hand_over-Returns h (some r) e = (_, refl)

module _ {B : Type 0} (append : B → Bytes → Option B) where
  parse_path-Returns : (path : Bytes) (len : ℕ) (buf : B) → Returns (parse_path append path len buf)
  unfolding parse_path
  parse_path-Returns path len buf = parse_appended-Returns path len _

  after_act-Returns :
      (a : Act) (rest : Bytes) (buf : B) (loop : UrlHead → Option (Result B))
      → ((h : UrlHead) → Returns (loop h))
      → Returns (after_act append a rest buf loop)
  unfolding after_act
  after_act-Returns (take_byte h) rest buf loop l = l h
  after_act-Returns refuse rest buf loop l = (_, refl)
  after_act-Returns (start_path h len) rest buf loop l =
      hand_over-Returns h (parse_path append rest len buf) (parse_path-Returns rest len buf)

  parse_from-Returns : (url : Bytes) (buf : B) (h : UrlHead) → Returns (parse_from append url buf h)
  unfolding parse_from
  parse_from-Returns [] buf h = (_, refl)
  parse_from-Returns (c ∷ rest) buf h = after_act-Returns _ rest buf _ (parse_from-Returns rest buf)

  -- `url_parser::parse` returns, on any URL.
  pub parse_total : (url : Bytes) (buf : B) → (r : Result B) × (parse append url buf ≡ some r)
  unfolding parse
  parse_total url buf = parse_from-Returns url buf fresh_head
