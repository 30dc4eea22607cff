-- ===== src/Encoders/Text.antt =====
-- net/url_encoder.cpp and html/html_encoder.cpp: the bytes that an encoder counts, and those that it writes.
use gweb_plusplus.Base.{
  ℕ, ◌+◌, ◌*◌, ◌≤◌, ◌<◌, ◌%◌, ◌^◌, Bool, true, false, [], ◌∷◌, ◌++◌, size_mod, Bytes, length,
  length-append, arith, ◌≡◌, refl, ℤ, pos, negsuc,
}
use gweb_plusplus.Buffer.{Buffer, allocate}
use gweb_plusplus.Buffer.Appends.{
  contents, IsSound, IsRoom, IsRefused, IsAllocated, allocate-IsAllocated, write_in-IsAppended,
}
use gweb_plusplus.Encoders.{needed, encoded, int, fill}

-- The buffer holds `text` behind what it held, and the call returns its length; or there is no memory for it, and
-- the call returns -1 and leaves the buffer.
abbrev pub IsEncoded : (ℕ → Bool) → Buffer → Bytes → Buffer × ℤ → Type 0
IsEncoded realloc b text (b', negsuc n) = (n ≡ 0) × (b' ≡ b) × IsRefused realloc b (length text)
IsEncoded realloc b text (b', pos n) =
    IsSound b' × (contents b' ≡ contents b ++ text) × IsRoom realloc b b' × (n ≡ length text)

int-pos : (n : ℕ) → n < 2 ^ 31 → int n ≡ pos n
int-pos n lt = ground arith

module _ (width : ℕ → ℕ) (code : ℕ → Bytes) (width-code : (c : ℕ) → width c ≡ length (code c))
    (code_le : (c : ℕ) → length (code c) ≤ 6) where
  pub length-encoded_le : (s : Bytes) → length (encoded code s) ≤ 6 * length s
  unfolding encoded
  length-encoded_le [] = omega arith
  length-encoded_le (c ∷ s) =
      omega (arith, length-append (code c) (encoded code s), code_le c, length-encoded_le s)

  needed-encoded :
      (n : ℕ) (s : Bytes)
      → n + length (encoded code s) < size_mod
      → needed width n s ≡ n + length (encoded code s)
  unfolding needed encoded
  needed-encoded n [] lt = omega arith
  needed-encoded n (c ∷ s) lt =
      let e = length-append (code c) (encoded code s) in
      let small : (n + width c) % size_mod ≡ n + length (code c) =
        rw (width-code c) (omega arith) in
      rw small (omega (arith, needed-encoded (n + length (code c)) s (omega arith)))

  fill-IsEncoded :
      (realloc : ℕ → Bool) (b : Buffer) (text : Bytes) (r : Buffer × Bool)
      → b.used + length text < 2 ^ 31
      → IsAllocated realloc b (length text) r
      → IsEncoded realloc b text (fill r text (length text))
  unfolding fill
  fill-IsEncoded realloc b text (b', true) lt v =
      let w = write_in-IsAppended realloc b text (b', true) (omega arith) v in
      rw (int-pos (length text) (omega arith)) (w.0, w.1, w.2, refl)
  fill-IsEncoded realloc b text (b', false) lt v = (refl, v.0, v.1)

  -- For a text whose encoding, with the buffer's contents and its increment, is below 2 ^ 31 bytes.
  pub encode-IsEncoded :
      (realloc : ℕ → Bool) (b : Buffer) (s : Bytes)
      → IsSound b
      → b.used + 6 * length s + b.increment < 2 ^ 31
      → IsEncoded realloc b
          (encoded code s)
          (fill (allocate realloc b (needed width 0 s)) (encoded code s) (needed width 0 s))
  encode-IsEncoded realloc b s v lt =
      let le = length-encoded_le s in
      let e : needed width 0 s ≡ length (encoded code s) =
        omega (arith, needed-encoded 0 s (omega arith)) in
      rw e (
        fill-IsEncoded realloc b (encoded code s) _ (omega arith)
          (allocate-IsAllocated realloc b (length (encoded code s)) v (omega arith)))
