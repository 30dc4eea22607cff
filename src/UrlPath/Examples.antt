-- ===== src/UrlPath/Examples.antt =====
-- `parse_path` on concrete paths, and its theorems at one of them.
use gweb_plusplus.Base.{
  ℕ, suc, ◌≤◌, Bytes, Option, none, some, [], ◌∷◌, ◌≡◌, refl, arith, length, here, after,
}
use gweb_plusplus.UrlPath.{
  Cursor, UrlState, fresh, Outcome, forbidden, success, State, on_escape, go_up, climb, hex_digit,
  escape, drop_segment, keep_slash,
}
use gweb_plusplus.UrlPath.Machine.{normalise, round_in}
use gweb_plusplus.UrlPath.Rounds.{normalise_total}
use gweb_plusplus.UrlPath.InPlace.{extent, Runs-extent}
use gweb_plusplus.UrlPath.Normal.{IsGood, normalise-IsGood}

-- What a run leaves: the bytes written, backwards, the path's length and the extension.
record Left : Type 0 where
  out : Bytes
  path_len : ℕ
  extension : Option ℕ
  extension_len : ℕ

left : Option Outcome → Option Left
left (some (success p)) = some (record {
  out = p.out;
  path_len = p.path_len;
  extension = p.extension;
  extension_len = p.extension_len;
})
left _ = none

-- `/a/../b%2Fc?q` is `/b/c?q`.
abbrev up_and_down : Bytes
up_and_down = b'a' ∷ b'/' ∷ b'.' ∷ b'.' ∷ b'/' ∷ b'b' ∷ b'%' ∷ b'2' ∷ b'F' ∷ b'c' ∷ b'?' ∷ b'q' ∷ []

up_and_down_run :
    left (normalise fresh up_and_down)
    ≡ some (record {
      out = b'q' ∷ b'?' ∷ b'c' ∷ b'/' ∷ b'b' ∷ b'/' ∷ [];
      path_len = 4;
      extension = none;
      extension_len = 0;
    })
unfolding normalise on_escape go_up climb escape hex_digit drop_segment keep_slash left
up_and_down_run = refl

-- `/../x` is forbidden.
above_root : normalise fresh (b'.' ∷ b'.' ∷ b'/' ∷ b'x' ∷ []) ≡ some forbidden
unfolding normalise on_escape go_up climb
above_root = refl

-- In `/a.p%68p` the extension `php` is given the length 2: an escaped byte is not counted.
escaped_extension :
    left (normalise fresh (b'a' ∷ b'.' ∷ b'p' ∷ b'%' ∷ b'6' ∷ b'8' ∷ b'p' ∷ []))
    ≡ some (record {
      out = b'p' ∷ b'h' ∷ b'p' ∷ b'.' ∷ b'a' ∷ b'/' ∷ [];
      path_len = 6;
      extension = some 3;
      extension_len = 2;
    })
unfolding normalise on_escape go_up escape hex_digit left
escaped_extension = refl

normalise_total_example : (o : Outcome) × (normalise fresh up_and_down ≡ some o)
normalise_total_example = normalise_total fresh up_and_down

abbrev one_byte : Bytes
one_byte = b'x' ∷ []

-- `/x`, behind its byte.
abbrev behind_x : Cursor
behind_x = record {
  path = record fresh { state = State.segment; out = b'x' ∷ b'/' ∷ [] };
  rest = [];
}

Runs-extent_example : extent behind_x ≤ suc (length one_byte)
unfolding round_in
Runs-extent_example = Runs-extent one_byte behind_x (after here refl)

-- The result of `/x`.
abbrev short : UrlState
short = record fresh { state = State.segment; out = b'x' ∷ b'/' ∷ []; path_len = 2 }

normalise-IsGood_example : IsGood (success short)
unfolding normalise
normalise-IsGood_example = normalise-IsGood one_byte (success short) (omega arith) refl
