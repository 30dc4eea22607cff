-- ===== src/Fastcgi/Pairs/Whole.antt =====
-- http/fastcgi.cpp: records of pairs that are written where the array has room for all of them.
use gweb_plusplus.Base.{
  ℕ, ◌+◌, ◌≤◌, ◌<◌, Bool, true, List, [], ◌∷◌, ◌++◌, append-nil, append_assoc, map, Option, some,
  Bytes, length, size_mod, length-append, length-take, All, arith, ◌≡◌, ap, ◌∙◌, subst,
}
use gweb_plusplus.Buffer.Appends.{IsSound, contents}
use gweb_plusplus.Fastcgi.{length_bytes}
use gweb_plusplus.Fastcgi.Decode.{pairs_bytes}
use gweb_plusplus.Fastcgi.Records.{record_onto}
use gweb_plusplus.Fastcgi.Stream.{zeros, padding_for}
use gweb_plusplus.Fastcgi.Pairs.{
  NameValuePairs, Argument, written_name, name_length, argument_bytes, while_added, add_all,
  record_of,
}
use gweb_plusplus.Fastcgi.Pairs.Begun.{
  IsArgument, pair_of, length-written_name, IsOpen, header-IsOpen, add-IsOpen,
}
use gweb_plusplus.Fastcgi.Pairs.Ended.{end-IsWritten}

-- The bytes of `add` are those of the pair.
pub argument_bytes-pairs_bytes :
    (a : Argument) (rest : List Argument)
    → IsArgument a
    → argument_bytes a ++ pairs_bytes (map pair_of rest) ≡ pairs_bytes (map pair_of (a ∷ rest))
unfolding pairs_bytes
argument_bytes-pairs_bytes a rest v =
    let more = pairs_bytes (map pair_of rest) in
    let value = length_bytes (length a.value) in
    append_assoc (length_bytes (name_length a)) (value ++ (written_name a ++ a.value)) more
    ∙ ap (λ x. length_bytes (name_length a) ++ x)
        (append_assoc value (written_name a ++ a.value) more
          ∙ ap (λ x. value ++ x) (append_assoc (written_name a) a.value more))
    ∙ ap (λ n. length_bytes n ++ (value ++ (written_name a ++ (a.value ++ more))))
        (length-written_name a v)

IsWritten : Bytes → ℕ → ℕ → Bytes → Option (NameValuePairs × Bool) → Type 0
IsWritten before type id content r =
    (t : NameValuePairs) × (r ≡ some (t, true))
    × IsSound t.out
    × (contents t.out
        ≡ before
          ++ record_onto
              (record {
                type = type;
                id = id;
                content = content;
                padding = zeros (padding_for (length content));
              })
              [])

module _ (realloc moves : ℕ → Bool) (before : Bytes) (type id size : ℕ) where
  add_all-IsWritten :
      (arguments : List Argument) (content : Bytes) (s : NameValuePairs)
      → All IsArgument arguments
      → IsOpen before type id content size s
      → length (content ++ pairs_bytes (map pair_of arguments)) < 65536
      → length before + 15 + length (content ++ pairs_bytes (map pair_of arguments)) ≤ size
      → size < size_mod
      → IsWritten before type id
          (content ++ pairs_bytes (map pair_of arguments))
          (add_all realloc moves arguments s)
  unfolding add_all pairs_bytes while_added IsWritten
  add_all-IsWritten [] content s v o small le lt = rw (append-nil content) (
      end-IsWritten realloc moves before type id content size s o
        (omega (arith, length-append content [])) lt)
  add_all-IsWritten (a ∷ rest) content s v o small le lt =
      let more = pairs_bytes (map pair_of rest) in
      let e : (content ++ argument_bytes a) ++ more
          ≡ content ++ pairs_bytes (map pair_of (a ∷ rest)) =
        append_assoc content (argument_bytes a) more
        ∙ ap (λ x. content ++ x) (argument_bytes-pairs_bytes a rest v.0) in
      let len = length-append (content ++ argument_bytes a) more in
      let (t, added, opened) =
        add-IsOpen realloc moves before type id content size a s v.0 o
          (omega (arith, small, len, ap length e)) (omega (arith, le, len, ap length e)) lt in
      let (u, ended, sound, holds) =
        add_all-IsWritten rest (content ++ argument_bytes a) t v.1 opened
          (omega (arith, small, ap length e)) (omega (arith, le, ap length e)) lt in
      (
        u,
        ap (while_added realloc moves (add_all realloc moves rest)) added ∙ ended,
        sound,
        subst
            (λ x.
              contents u.out
              ≡ before
                ++ record_onto
                    (record {
                      type = type;
                      id = id;
                      content = x;
                      padding = zeros (padding_for (length x));
                    })
                    [])
            e holds,
      )

-- Where the array has room for the record, and so is not moved: the header, the calls of `add` and the end
-- leave the buffer with one record of the protocol behind what it held, padded to a multiple of 8, whose contents
-- are the encoding of the pairs, each name with its prefix and in upper case where that is asked for. The names and
-- values must fit 16 bits, as must all of them together.
pub record_of-IsWritten :
    (realloc moves : ℕ → Bool) (type id : ℕ) (arguments : List Argument) (s : NameValuePairs)
    → All IsArgument arguments
    → IsSound s.out
    → length (pairs_bytes (map pair_of arguments)) < 65536
    → s.out.used + 15 + length (pairs_bytes (map pair_of arguments)) ≤ s.out.size
    → s.out.size < size_mod
    → (t : NameValuePairs) × (record_of realloc moves type id arguments s ≡ some (t, true))
      × IsSound t.out
      × (contents t.out
          ≡ contents s.out
            ++ record_onto
                (record {
                  type = type;
                  id = id;
                  content = pairs_bytes (map pair_of arguments);
                  padding = zeros (padding_for (length (pairs_bytes (map pair_of arguments))));
                })
                [])
unfolding record_of while_added IsWritten
record_of-IsWritten realloc moves type id arguments s v sound small le lt =
    let (t, begun, opened) = header-IsOpen realloc moves type id s sound (omega arith) lt in
    let len = length-take s.out.used s.out.data' sound.written in
    let (u, ended, kept, holds) =
      add_all-IsWritten realloc moves (contents s.out) type id s.out.size arguments [] t v opened
        small (omega (arith, len)) lt in
    (u, ap (while_added realloc moves (add_all realloc moves arguments)) begun ∙ ended, kept, holds)
