-- ===== src/Fastcgi/Pairs/Begun.antt =====
-- http/fastcgi.cpp: a record of pairs that is being written, where the array has room for all of it.
use gweb_plusplus.Base.{
  ℕ, suc, ◌+◌, ◌%◌, ◌≤◌, ◌<◌, Bool, true, false, [], ◌∷◌, ◌++◌, append_assoc, map, some, ltb, leb,
  ◌==◌, if◌then◌else◌, Bytes, length, size_mod, length-append, length-take, Bool-cases, inl, inr,
  arith, ◌≡◌, refl, ap, sym, ◌∙◌, subst,
}
use gweb_plusplus.Buffer.{Buffer, increment_count, write, allocate}
use gweb_plusplus.Buffer.Appends.{IsSound, contents, write_in-IsAppended}
use gweb_plusplus.Fastcgi.{header_bytes, length_bytes}
use gweb_plusplus.Fastcgi.Decode.{Pair}
use gweb_plusplus.Fastcgi.Pairs.{
  NameValuePairs, Argument, upper, written_name, name_length, pair_size, argument_bytes, grow,
  header, add, add_grown,
}

-- The lengths fit 16 bits, with the prefix.
abbrev pub IsArgument : Argument → Type 0
IsArgument a = (length a.name + 5 < 65536) × (length a.value < 65536)

abbrev pub pair_of : Argument → Pair
pair_of a = record { name = written_name a; value = a.value }

length-map : (f : ℕ → ℕ) (xs : Bytes) → length (map f xs) ≡ length xs
length-map f [] = refl
length-map f (x ∷ xs) = ap suc (length-map f xs)

pub length-written_name : (a : Argument) → IsArgument a → name_length a ≡ length (written_name a)
length-written_name a v = elim (Bool-cases a.prepend_http) [
  | inl d ↦ elim (Bool-cases a.to_uppercase) [
    | inl e ↦ rw d (rw e (omega (arith, v.0, length-map upper a.name)))
    | inr e ↦ rw d (rw e (omega (arith, v.0)))
  ]
  | inr d ↦ elim (Bool-cases a.to_uppercase) [
    | inl e ↦ rw d (rw e (omega (arith, v.0, length-map upper a.name)))
    | inr e ↦ rw d (rw e (omega (arith, v.0)))
  ]
]

length-length_bytes : (n : ℕ) → length (length_bytes n) ≡ (if leb n 127 then 1 else 4)
length-length_bytes n = ground arith

pub length-argument_bytes : (a : Argument) → IsArgument a → length (argument_bytes a) ≡ pair_size a
length-argument_bytes a v =
    let tail = written_name a ++ a.value in
    omega (
      arith,
      length-append (length_bytes (name_length a)) (length_bytes (length a.value) ++ tail),
      length-append (length_bytes (length a.value)) tail,
      length-append (written_name a) a.value,
      length-length_bytes (name_length a),
      length-length_bytes (length a.value),
      length-written_name a v,
    )

module _ (realloc moves : ℕ → Bool) where
  allocate_fits :
      (b : Buffer) (n : ℕ)
      → b.used + n ≤ b.size
      → b.size < size_mod
      → allocate realloc b n ≡ (b, true)
  unfolding allocate
  allocate_fits b n le lt =
      let fits : leb ((n + b.used) % size_mod) b.size ≡ true = ground arith in rw fits refl

  pub grow_fits :
      (s : NameValuePairs) (n : ℕ)
      → s.out.used + n ≤ s.out.size
      → s.out.size < size_mod
      → grow realloc moves s n ≡ (s, true)
  unfolding grow
  grow_fits s n le lt =
      let same : (s.out.size == s.out.size) ≡ true = ground arith in
      rw (allocate_fits s.out n le lt) (rw same refl)

-- A record is being written: what was there before it, and its contents so far.
pub record IsOpen (before : Bytes) (type id : ℕ) (content : Bytes) (size : ℕ) (s : NameValuePairs)
    : Type 0 where
  pub sound : IsSound s.out
  pub at : s.header ≡ some (length before)
  pub holds : contents s.out ≡ before ++ (header_bytes type id 0 0 ++ content)
  pub counted : s.content_length ≡ length content
  pub sized : s.out.size ≡ size

pub used-open :
    (before : Bytes) (type id : ℕ) (content : Bytes) (size : ℕ) (s : NameValuePairs)
    → IsOpen before type id content size s
    → s.out.used ≡ length before + 8 + length content
used-open before type id content size s v = omega (
  arith,
  length-take s.out.used s.out.data' v.sound.written,
  ap length v.holds,
  length-append before (header_bytes type id 0 0 ++ content),
)

-- Bytes that are written where there is room.
pub written :
    (b : Buffer) (bytes : Bytes) (n : ℕ)
    → length bytes ≡ n
    → IsSound b
    → b.used + n ≤ b.size
    → b.size < size_mod
    → let b' = increment_count (write b bytes) n in IsSound b' × (contents b' ≡ contents b ++ bytes)
written b bytes n e v le lt =
    let w =
      write_in-IsAppended (λ m. true) b bytes (b, true) (omega arith)
        (v, refl, refl, omega arith, inl refl) in
    subst
      (λ k.
        IsSound (increment_count (write b bytes) k)
        × (contents (increment_count (write b bytes) k) ≡ contents b ++ bytes))
      e (w.0, w.1)

module _ (realloc moves : ℕ → Bool) where
  pub header-IsOpen :
      (type id : ℕ) (s : NameValuePairs)
      → IsSound s.out
      → s.out.used + 8 ≤ s.out.size
      → s.out.size < size_mod
      → (t : NameValuePairs) × (header realloc moves type id s ≡ (t, true))
        × IsOpen (contents s.out) type id [] s.out.size t
  unfolding header
  header-IsOpen type id s v le lt =
      let w = written s.out (header_bytes type id 0 0) 8 refl v le lt in
      (
        record {
          out = increment_count (write s.out (header_bytes type id 0 0)) 8;
          header = some s.out.used;
          content_length = 0;
        },
        rw (allocate_fits realloc moves s.out 8 le lt) refl,
        record {
          sound = w.0;
          at = ap some (sym (length-take s.out.used s.out.data' v.written));
          holds = w.1;
          counted = refl;
          sized = refl;
        },
      )

  pub add-IsOpen :
      (before : Bytes) (type id : ℕ) (content : Bytes) (size : ℕ) (a : Argument)
      (s : NameValuePairs)
      → IsArgument a
      → IsOpen before type id content size s
      → length (content ++ argument_bytes a) < 65536
      → length before + 8 + length (content ++ argument_bytes a) ≤ size
      → size < size_mod
      → (t : NameValuePairs) × (add realloc moves a s ≡ (t, true))
        × IsOpen before type id (content ++ argument_bytes a) size t
  unfolding add add_grown
  add-IsOpen before type id content size a s v o small le lt =
      let len = length-argument_bytes a v in
      let total = length-append content (argument_bytes a) in
      let used = used-open before type id content size s o in
      let room : s.out.used + pair_size a ≤ s.out.size = omega (arith, o.sized, total, len) in
      let fits : ltb 65535 (s.content_length + pair_size a) ≡ false =
        ground (arith, o.counted, total, len) in
      let w =
        written s.out (argument_bytes a) (pair_size a) len o.sound room (omega (arith, o.sized)) in
      (
        record s {
          out = increment_count (write s.out (argument_bytes a)) (pair_size a);
          content_length = (s.content_length + pair_size a) % 65536;
        },
        rw fits (rw (grow_fits realloc moves s (pair_size a) room (omega (arith, o.sized))) refl),
        record {
          sound = w.0;
          at = o.at;
          holds =
              w.1
              ∙ ap (λ x. x ++ argument_bytes a) o.holds
              ∙ append_assoc before (header_bytes type id 0 0 ++ content) (argument_bytes a);
          counted = omega (arith, o.counted, total, len);
          sized = o.sized;
        },
      )
