-- ===== src/Utf8/Examples.antt =====
-- string/utf8.cpp: `length` on concrete texts.
use gweb_plusplus.Base.{List, [], ◌∷◌, none, some, Bytes, length, All, flatten, ◌≡◌, ◌↔◌, refl}
use gweb_plusplus.Utf8.{utf8_length, utf8_length_nul, following, is_following}
use gweb_plusplus.Utf8.Characters.{IsCharacter, utf8_length-characters}

-- An `a` and a euro sign.
abbrev euro : Bytes
euro = b'a' ∷ 226 ∷ 130 ∷ 172 ∷ []

euro_run : utf8_length_nul euro ≡ some (4, 2)
unfolding utf8_length_nul following is_following
euro_run = refl

-- The last byte is missing.
short_run : utf8_length (226 ∷ 130 ∷ []) ≡ none
unfolding utf8_length following is_following
short_run = refl

utf8_length-characters_example :
    (utf8_length euro ≡ some 2)
    ↔ ((cs : List Bytes) × All IsCharacter cs × (flatten cs ≡ euro) × (length cs ≡ 2))
utf8_length-characters_example = utf8_length-characters euro 2
