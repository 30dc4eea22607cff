-- ===== src/Buffer/Appends.antt =====
-- string/buffer.h: what the appends leave in a buffer.
use gweb_plusplus.Base.{
  ℕ, ◌+◌, ◌≤◌, ◌<◌, ◌*◌, ◌/◌, ◌%◌, Bool, true, false, [], ◌∷◌, ◌++◌, append-nil, ◌==◌,
  if◌then◌else◌, size_mod, Bytes, length, take, drop, length-append, length-take, length-drop,
  take-append, take-length, arith, Bool-cases, leb, ◌⊎◌, inl, inr, refl, ◌≡◌, ap, sym, ◌∙◌,
}
use gweb_plusplus.Buffer.{
  Buffer, write, rounded, allocate, write_in, append_char, append, append_nul_terminated_string,
}
use native.Mathlib.Nat.{mod-lt, div-add-mod'}

-- `take` of all of `xs` and of `ys` behind it.
take-append_to :
    (n : ℕ) (xs ys zs : Bytes) → n ≡ length xs + length ys → take n (xs ++ ys ++ zs) ≡ xs ++ ys
take-append_to n xs ys zs e =
    take-append n (xs ++ ys) zs (omega (arith, length-append xs ys))
    ∙ ap (λ k. take k (xs ++ ys)) (e ∙ sym (length-append xs ys))
    ∙ take-length (xs ++ ys)

abbrev pub contents : Buffer → Bytes
contents b = take b.used b.data'

-- The bytes in use have been written, and lie within the array, as do all that were written.
pub record IsSound (b : Buffer) : Type 0 where
  pub written : b.used ≤ length b.data'
  pub fits : length b.data' ≤ b.size
  pub grows : 0 < b.increment

-- The array is as large as it was, or as large as `realloc` has made it.
abbrev pub IsRoom : (ℕ → Bool) → Buffer → Buffer → Type 0
IsRoom realloc b b' = (b'.size ≡ b.size) ⊎ (realloc b'.size ≡ true)

-- There is no room for `n` bytes more, and `realloc` has failed for a size that would have had it.
abbrev pub IsRefused : (ℕ → Bool) → Buffer → ℕ → Type 0
IsRefused realloc b n = (b.size < b.used + n) × (m : ℕ) × (b.used + n ≤ m) × (realloc m ≡ false)

-- The buffer holds `s` behind what it held, or there is no memory for it, and it is as it was.
abbrev pub IsAppended : (ℕ → Bool) → Buffer → Bytes → Buffer × Bool → Type 0
IsAppended realloc b s (b', true) =
    IsSound b' × (contents b' ≡ contents b ++ s) × IsRoom realloc b b'
IsAppended realloc b s (b', false) = (b' ≡ b) × IsRefused realloc b (length s)

-- What `allocate` has made room for.
abbrev pub IsAllocated : (ℕ → Bool) → Buffer → ℕ → Buffer × Bool → Type 0
IsAllocated realloc b n (b', true) =
    IsSound b'
    × (b'.data' ≡ b.data')
    × (b'.used ≡ b.used)
    × (b.used + n ≤ b'.size)
    × IsRoom realloc b b'
IsAllocated realloc b n (b', false) = (b' ≡ b) × IsRefused realloc b n

round_up :
    (q r k n : ℕ)
    → q * k + r ≡ n
    → r < k
    → n + k < size_mod
    → n ≤ (q + (if r == 0 then 0 else 1)) * k % size_mod
round_up q r k n e lt bound = ground arith

pub rounded-le : (n k : ℕ) → 0 < k → n + k < size_mod → n ≤ rounded n k
rounded-le n k pos lt = round_up (n / k) (n % k) k n (div-add-mod' n k) (mod-lt n pos) lt

pub write-length :
    (b : Buffer) (s : Bytes)
    → b.used ≤ length b.data'
    → b.used + length s ≤ length (write b s).data'
write-length b s le = omega (
  arith,
  length-append (take b.used b.data' ++ s) (drop (b.used + length s) b.data'),
  length-append (take b.used b.data') s,
  length-take b.used b.data' le,
)

write-length_le :
    (b : Buffer) (s : Bytes) (n : ℕ)
    → b.used ≤ length b.data'
    → length b.data' ≤ n
    → b.used + length s ≤ n
    → length (write b s).data' ≤ n
write-length_le b s n le top fits = omega (
  arith,
  length-append (take b.used b.data' ++ s) (drop (b.used + length s) b.data'),
  length-append (take b.used b.data') s,
  length-take b.used b.data' le,
  length-drop (b.used + length s) b.data',
)

write-contents :
    (b : Buffer) (s : Bytes)
    → b.used ≤ length b.data'
    → take (b.used + length s) (write b s).data' ≡ contents b ++ s
write-contents b s le =
    take-append_to (b.used + length s) (contents b) s _
      (omega (arith, length-take b.used b.data' le))

resized-IsSound : (b : Buffer) (n : ℕ) → IsSound b → b.size ≤ n → IsSound (record b { size = n })
resized-IsSound b n v le = record {
  written = v.written;
  fits = omega (arith, v.fits);
  grows = v.grows;
}

pub allocate-IsAllocated :
    (realloc : ℕ → Bool) (b : Buffer) (n : ℕ)
    → IsSound b
    → b.used + n + b.increment < size_mod
    → IsAllocated realloc b n (allocate realloc b n)
unfolding allocate
allocate-IsAllocated realloc b n v lt =
    let small : (n + b.used) % size_mod ≡ n + b.used = omega arith in
    let room : n + b.used ≤ rounded (n + b.used) b.increment =
      rounded-le (n + b.used) b.increment v.grows (omega arith) in
    rw small (elim (Bool-cases (leb (n + b.used) b.size)) [
      | inl d ↦ rw d (v, refl, refl, ground arith, inl refl)
      | inr d ↦
          let full : b.size < b.used + n = ground arith in
          elim (Bool-cases (realloc (rounded (n + b.used) b.increment))) [
            | inl e ↦ rw d (
                rw e (
                  resized-IsSound b (rounded (n + b.used) b.increment) v (omega arith),
                  refl,
                  refl,
                  omega arith,
                  inr e,
                ))
            | inr e ↦ rw d (rw e (refl, (full, rounded (n + b.used) b.increment, omega arith, e)))
          ]
    ])

pub write_in-IsAppended :
    (realloc : ℕ → Bool) (b : Buffer) (s : Bytes) (r : Buffer × Bool)
    → b.used + length s < size_mod
    → IsAllocated realloc b (length s) r
    → IsAppended realloc b s (write_in r s)
write_in-IsAppended realloc b s (b', true) lt (w, d, u, le, room) =
    let small : (b'.used + length s) % size_mod ≡ b'.used + length s = omega arith in
    (
      record {
        written = rw small (write-length b' s w.written);
        fits = write-length_le b' s b'.size w.written w.fits (omega arith);
        grows = w.grows;
      },
      rw small (write-contents b' s w.written ∙ ap (λ x. x ++ s) (ap2 d u)),
      room,
    )
  where
    ap2 : b'.data' ≡ b.data' → b'.used ≡ b.used → contents b' ≡ contents b
    ap2 d u = rw u (ap (take b.used) d)
write_in-IsAppended realloc b s (b', false) lt e = e

-- `append` on a string: the buffer then holds the string behind what it held, and its bytes stay within the array,
-- which is as large as it was, or as large as `realloc` has made it; or it is as it was, and then the array has no
-- room for the string, and `realloc` has failed for a size that has. The sum of the sizes must be below 2 ^ 64.
pub append-IsAppended :
    (realloc : ℕ → Bool) (b : Buffer) (s : Bytes)
    → IsSound b
    → b.used + length s + b.increment < size_mod
    → IsAppended realloc b s (append realloc b s)
unfolding append
append-IsAppended realloc b [] v lt = (v, sym (append-nil (contents b)), inl refl)
append-IsAppended realloc b (c ∷ s) v lt =
    let some_bytes : (length (c ∷ s) == 0) ≡ false = ground arith in
    rw some_bytes (
      write_in-IsAppended realloc b (c ∷ s) _ (omega arith)
        (allocate-IsAllocated realloc b (length (c ∷ s)) v lt))

-- The same of `append` on a character.
pub append_char-IsAppended :
    (realloc : ℕ → Bool) (b : Buffer) (c : ℕ)
    → IsSound b
    → b.used + 1 + b.increment < size_mod
    → IsAppended realloc b (c ∷ []) (append_char realloc b c)
unfolding append_char
append_char-IsAppended realloc b c v lt =
    write_in-IsAppended realloc b (c ∷ []) _ (omega arith) (allocate-IsAllocated realloc b 1 v lt)

-- The same of the append that adds a NUL.
pub append_nul-IsAppended :
    (realloc : ℕ → Bool) (b : Buffer) (s : Bytes)
    → IsSound b
    → b.used + (length s + 1) + b.increment < size_mod
    → IsAppended realloc b (s ++ (0 ∷ [])) (append_nul_terminated_string realloc b s)
unfolding append_nul_terminated_string
append_nul-IsAppended realloc b s v lt =
    let e : length (s ++ (0 ∷ [])) ≡ length s + 1 = length-append s (0 ∷ []) in
    write_in-IsAppended realloc b (s ++ (0 ∷ [])) _ (omega arith)
      (rw e (allocate-IsAllocated realloc b (length s + 1) v lt))
