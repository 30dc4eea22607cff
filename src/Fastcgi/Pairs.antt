-- ===== src/Fastcgi/Pairs.antt =====
-- http/fastcgi.h and http/fastcgi.cpp: `name_value_pairs` and `params`, which write a record of pairs into a
-- buffer. Its header is filled in at the end, through a pointer into the array; whether a `realloc` that
-- succeeds moves the array is a parameter.
pub mod Begun
pub mod Ended
pub mod Whole
pub mod Moved
use gweb_plusplus.Base.{
  ℕ, ◌+◌, ◌-◌, ◌*◌, ◌/◌, ◌%◌, Bool, true, false, not, ◌&&◌, List, [], ◌∷◌, ◌++◌, map, Option, none,
  some, ltb, leb, ◌==◌, if◌then◌else◌, is_alpha, within, Bytes, length, take, drop, size_mod,
}
use gweb_plusplus.Buffer.{Buffer, increment_count, write, allocate, write_in}
use gweb_plusplus.Fastcgi.{high, low, header_bytes, length_bytes}
use gweb_plusplus.Fastcgi.Stream.{zeros, padding_for}

-- `_M_header` is an offset into the array, `none` once the array it points into has moved.
pub record NameValuePairs : Type 0 where
  pub out : Buffer
  pub header : Option ℕ
  pub content_length : ℕ

-- The arguments of `add`.
pub record Argument : Type 0 where
  pub name : Bytes
  pub value : Bytes
  pub prepend_http : Bool
  pub to_uppercase : Bool

-- `c & ~0x20` of a letter, and an underscore for a dash.
abbrev pub upper : ℕ → ℕ
upper c =
    if is_alpha c then (if within b'a' b'z' c then c - 32 else c) else if c == b'-' then b'_' else c

abbrev pub prefix : Argument → Bytes
prefix a = if a.prepend_http then b'H' ∷ b'T' ∷ b'T' ∷ b'P' ∷ b'_' ∷ [] else []

abbrev pub written_name : Argument → Bytes
written_name a = prefix a ++ (if a.to_uppercase then map upper a.name else a.name)

-- `namelen`, an `unsigned short`, the prefix counted.
abbrev pub name_length : Argument → ℕ
name_length a = (length a.name + length (prefix a)) % 65536

abbrev pub pair_size : Argument → ℕ
pair_size a =
    name_length a
    + length a.value
    + (if leb (name_length a) 127 then 1 else 4)
    + (if leb (length a.value) 127 then 1 else 4)

-- The bytes that `add` writes.
abbrev pub argument_bytes : Argument → Bytes
argument_bytes a =
    length_bytes (name_length a) ++ (length_bytes (length a.value) ++ (written_name a ++ a.value))

-- The three bytes of the lengths in the header.
abbrev pub patch : Buffer → ℕ → ℕ → Buffer
patch b at len = record b {
  data' =
      take (at + 4) b.data'
      ++ ((high len ∷ low len ∷ padding_for len ∷ []) ++ drop (at + 7) b.data');
}

module _ (realloc moves : ℕ → Bool) where
  -- `_M_out.allocate`, and what becomes of the pointer.
  unfoldable pub grow : NameValuePairs → ℕ → NameValuePairs × Bool
  unfolding allocate
  grow s n =
      let r = allocate realloc s.out n in
      let moved = not (r.0.size == s.out.size) && moves r.0.size in
      (record s { out = r.0; header = if moved then none else s.header }, r.1)

  pub header : ℕ → ℕ → NameValuePairs → NameValuePairs × Bool
  unfolding allocate
  header type id s =
      let r = allocate realloc s.out 8 in
      if r.1
      then (
        record {
          out = increment_count (write r.0 (header_bytes type id 0 0)) 8;
          header = some (r.0.used);
          content_length = 0;
        },
        true,
      )
      else (record s { out = r.0 }, false)

  pub add_grown : Argument → NameValuePairs × Bool → NameValuePairs × Bool
  add_grown a (s, false) = (s, false)
  add_grown a (s, true) = (
    record s {
      out = increment_count (write s.out (argument_bytes a)) (pair_size a);
      content_length = (s.content_length + pair_size a) % 65536;
    },
    true,
  )

  pub add : Argument → NameValuePairs → NameValuePairs × Bool
  unfolding grow add_grown
  add a s =
      if ltb 65535 (s.content_length + pair_size a)
      then (s, false)
      else add_grown a (grow s (pair_size a))

  -- Behind the allocation for the padding, whose length is read through the pointer.
  pub end_padded : ℕ → NameValuePairs → Option ℕ → Option (NameValuePairs × Bool)
  end_padded padding s none = none
  end_padded padding s (some at) =
      some (record s { out = increment_count (write s.out (zeros padding)) padding }, true)

  pub end_grown : ℕ → NameValuePairs × Bool → Option (NameValuePairs × Bool)
  unfolding end_padded
  end_grown padding (s, false) = some (s, false)
  end_grown padding (s, true) = end_padded padding s s.header

  pub pad_out : NameValuePairs → ℕ → Option (NameValuePairs × Bool)
  unfolding grow end_grown
  pad_out s padding = if padding == 0 then some (s, true) else end_grown padding (grow s padding)

  pub end_at : NameValuePairs → Option ℕ → Option (NameValuePairs × Bool)
  unfolding pad_out
  end_at s none = none
  end_at s (some at) =
      pad_out (record s { out = patch s.out at s.content_length }) (padding_for s.content_length)

  -- `none` where it goes through a pointer to memory that has been freed.
  pub end : NameValuePairs → Option (NameValuePairs × Bool)
  unfolding end_at
  end s = end_at s s.header

  -- As the callers do: a header, an `add` after another while they succeed, and the end.
  pub while_added :
      (NameValuePairs → Option (NameValuePairs × Bool))
      → NameValuePairs × Bool
      → Option (NameValuePairs × Bool)
  while_added next (s, true) = next s
  while_added next (s, false) = some (s, false)

  pub add_all : List Argument → NameValuePairs → Option (NameValuePairs × Bool)
  unfolding add while_added end
  add_all [] s = end s
  add_all (a ∷ rest) s = while_added (add_all rest) (add a s)

  unfoldable pub record_of : ℕ → ℕ → List Argument → NameValuePairs → Option (NameValuePairs × Bool)
  unfolding header while_added add_all
  record_of type id arguments s = while_added (add_all arguments) (header type id s)

  -- `params`: the end writes the header of an empty record behind the other.
  after_end : ℕ → Option (NameValuePairs × Bool) → Option (NameValuePairs × Bool)
  unfolding header
  after_end id none = none
  after_end id (some (s, false)) = some (s, false)
  after_end id (some (s, true)) = some (header 4 id s)

  unfoldable pub params_end : ℕ → NameValuePairs → Option (NameValuePairs × Bool)
  unfolding end after_end
  params_end id s = after_end id (end s)
