-- ===== src/Fastcgi/Pairs/Ended.antt =====
-- http/fastcgi.cpp: the end of a record of pairs, where the array has room for all of it.
use gweb_plusplus.Base.{
  ℕ, suc, ◌+◌, ◌≤◌, ◌<◌, Bool, true, [], ◌∷◌, ◌++◌, append-nil, append_assoc, some, ◌==◌,
  if◌then◌else◌, Bytes, length, take, drop, size_mod, length-append, length-drop, Bool-cases, inl,
  inr, arith, ◌≡◌, refl, ap, sym, ◌∙◌,
}
use gweb_plusplus.Buffer.{increment_count, write}
use gweb_plusplus.Buffer.Appends.{IsSound, contents}
use gweb_plusplus.Fastcgi.{high, low, header_bytes}
use gweb_plusplus.Fastcgi.Decode.{take-first}
use gweb_plusplus.Fastcgi.Records.{record_onto}
use gweb_plusplus.Fastcgi.Stream.{zeros, padding_for}
use gweb_plusplus.Fastcgi.Stream.Whole.{length-zeros, take-append-drop}
use gweb_plusplus.Fastcgi.Pairs.{
  NameValuePairs, grow, patch, end, end_at, pad_out, end_grown, end_padded,
}
use gweb_plusplus.Fastcgi.Pairs.Begun.{grow_fits, IsOpen, used-open, written}

take-behind : (n : ℕ) (xs ys : Bytes) → take (length xs + n) (xs ++ ys) ≡ xs ++ take n ys
take-behind n [] ys = let e : 0 + n ≡ n = omega arith in ap (λ k. take k ys) e
take-behind n (x ∷ xs) ys =
    let e : suc (length xs) + n ≡ suc (length xs + n) = omega arith in
    ap (λ k. take k (x ∷ (xs ++ ys))) e ∙ ap (◌∷◌ x) (take-behind n xs ys)

drop-behind : (n : ℕ) (xs ys : Bytes) → drop (length xs + n) (xs ++ ys) ≡ drop n ys
drop-behind n [] ys = let e : 0 + n ≡ n = omega arith in ap (λ k. drop k ys) e
drop-behind n (x ∷ xs) ys =
    let e : suc (length xs) + n ≡ suc (length xs + n) = omega arith in
    ap (λ k. drop k (x ∷ (xs ++ ys))) e ∙ drop-behind n xs ys

-- The contents, once the lengths in the header have been filled in.
patch-contents :
    (before : Bytes) (type id : ℕ) (content : Bytes) (size : ℕ) (s : NameValuePairs) (len : ℕ)
    → IsOpen before type id content size s
    → IsSound (patch s.out (length before) len)
      × (contents (patch s.out (length before) len)
          ≡ before ++ (header_bytes type id len (padding_for len) ++ content))
patch-contents before type id content size s len o =
    let used = used-open before type id content size s o in
    let tail = drop s.out.used s.out.data' in
    let rest = header_bytes type id 0 0 ++ (content ++ tail) in
    let all : s.out.data' ≡ before ++ rest =
      sym (take-append-drop s.out.used s.out.data')
      ∙ ap (λ x. x ++ tail) o.holds
      ∙ append_assoc before (header_bytes type id 0 0 ++ content) tail in
    let first = header_bytes type id len (padding_for len) ++ content in
    let bytes : (patch s.out (length before) len).data' ≡ (before ++ first) ++ tail =
      ap
        (λ d.
          take (length before + 4) d
          ++ ((high len ∷ low len ∷ padding_for len ∷ []) ++ drop (length before + 7) d))
        all
      ∙ rw (take-behind 4 before rest) (
          rw (drop-behind 7 before rest)
            (append_assoc before _ _ ∙ sym (append_assoc before first tail))) in
    let behind : length (before ++ first) ≡ s.out.used =
      omega (arith, used, length-append before first) in
    (
      record {
        written = omega (arith, ap length bytes, length-append (before ++ first) tail, behind);
        fits = omega (
          arith,
          ap length bytes,
          length-append (before ++ first) tail,
          behind,
          o.sound.fits,
          o.sound.written,
          length-drop s.out.used s.out.data',
        );
        grows = o.sound.grows;
      },
      ap (take s.out.used) bytes
          ∙ ap (λ n. take n ((before ++ first) ++ tail)) (sym behind)
          ∙ take-first (before ++ first) tail,
    )

record_onto-end :
    (before : Bytes) (type id : ℕ) (content : Bytes) (pad : ℕ)
    → (before ++ (header_bytes type id (length content) pad ++ content)) ++ zeros pad
      ≡ before
        ++ record_onto (record { type = type; id = id; content = content; padding = zeros pad }) []
record_onto-end before type id content pad =
    append_assoc before (header_bytes type id (length content) pad ++ content) (zeros pad)
    ∙ rw (length-zeros pad) (
        rw (append-nil (zeros pad))
          (ap (λ x. before ++ (header_bytes type id (length content) pad ++ x)) refl))

pub end-IsWritten :
    (realloc moves : ℕ → Bool) (before : Bytes) (type id : ℕ) (content : Bytes) (size : ℕ)
    (s : NameValuePairs)
    → IsOpen before type id content size s
    → length before + 15 + length content ≤ size
    → size < size_mod
    → (t : NameValuePairs) × (end realloc moves s ≡ some (t, true))
      × IsSound t.out
      × (contents t.out
          ≡ before
            ++ record_onto
                (record {
                  type = type;
                  id = id;
                  content = content;
                  padding = zeros (padding_for (length content));
                })
                [])
unfolding end end_at pad_out end_grown end_padded
end-IsWritten realloc moves before type id content size s o le lt =
    let len = length content in
    let b = patch s.out (length before) len in
    let (sound, holds) = patch-contents before type id content size s len o in
    let used = used-open before type id content size s o in
    let pad = padding_for len in
    let first = before ++ (header_bytes type id len pad ++ content) in
    let few : pad ≤ 7 = ground arith in
    let u : NameValuePairs = record s { out = b } in
    let start : end realloc moves s ≡ pad_out realloc moves u pad =
      ap (end_at realloc moves s) o.at
      ∙ ap
          (λ n.
            pad_out realloc moves (record s { out = patch s.out (length before) n })
              (padding_for n))
          o.counted in
    elim (Bool-cases (pad == 0)) [
      | inl d ↦
          let none_left : zeros pad ≡ [] = let e : pad ≡ 0 = ground arith in ap zeros e in
          (
            record s { out = b },
            start ∙ rw d refl,
            sound,
            holds
                ∙ sym (append-nil first)
                ∙ ap (λ z. first ++ z) (sym none_left)
                ∙ record_onto-end before type id content pad,
          )
      | inr d ↦
          let room : b.used + pad ≤ b.size = omega (arith, used, few, o.sized) in
          let w =
            written b (zeros pad) pad (length-zeros pad) sound room (omega (arith, o.sized)) in
          (
            record s { out = increment_count (write b (zeros pad)) pad },
            start
                ∙ ap
                    (λ c.
                      if c
                      then some (u, true)
                      else end_grown realloc moves pad (grow realloc moves u pad))
                    d
                ∙ ap (end_grown realloc moves pad)
                    (grow_fits realloc moves u pad room (omega (arith, o.sized)))
                ∙ ap (end_padded realloc moves pad u) o.at,
            w.0,
            w.1 ∙ ap (λ x. x ++ zeros pad) holds ∙ record_onto-end before type id content pad,
          )
    ]
