-- ===== src/Chunked/RoundTrip.antt =====
-- http/chunked_parser.cpp: `parse_chunk` on what the chunked coding writes.
use gweb_plusplus.Base.{
  ℕ, suc, ◌+◌, ◌*◌, ◌^◌, ◌<◌, [], ◌∷◌, ◌++◌, ◌≡◌, refl, sym, ap, ◌∙◌, some, List, arith, ltb, Bytes,
  length, length-append, take-append, drop-append, take-length, drop-length, All, if◌then◌else◌,
  lt→ltb, more, stop, here, after, Runs-trans, loop_returns, append-nil, append_assoc,
}
use gweb_plusplus.Chunked.{
  State, chunk_size, reading_chunk_size, chunk_data, after_chunk_data, cr_after_chunk_data, trailer,
  entity_header, cr_after_entity_header, cr_after_trailer, Parser, reset, end_of_response, round_in,
  round, parse_chunk,
}
use gweb_plusplus.Chunked.Run.{rounds_left, round_falls}
use gweb_plusplus.Chunked.Coding.{
  contents, value_of, hex_value, IsText, IsExtension, Chunk, IsNumeral, IsChunk, Ending, IsLine,
  IsEnding, encode_chunk, encode_chunks, encode_lines, encode_ending, collect,
}
use gweb_plusplus.Chunked.Pieces.{
  Goes-at, arrives, cursor, Goes, lands, digits_run, text_run, extension_run, line_text,
}

after_size : ℕ → State
after_size n = if ltb 0 n then chunk_data else trailer

-- A size line, from the state before a chunk.
size_line_run :
    (ds xs rest s : Bytes) (m n at : ℕ)
    → IsNumeral ds n
    → IsExtension xs
    → Goes
        (cursor chunk_size m s at (ds ++ (xs ++ (13 ∷ 10 ∷ rest))))
        (cursor (after_size n) n s (at + length ds + length xs + 2) rest)
unfolding round_in after_size
size_line_run [] xs rest s m n at (h, ne, v, lt) x = absurd (ne refl)
size_line_run (c ∷ cs) xs rest s m n at (((d, e), h), ne, v, lt) x =
    let v' : d * 16 ^ length cs + hex_value cs ≡ n =
      ap (λ k. k * 16 ^ length cs + hex_value cs) (sym (ap value_of e)) ∙ v in
    lands (after_size n) n n s (at + 1 + length cs + length xs + 1 + 1) _ rest refl (omega arith) (
      after
        (Runs-trans (round collect)
          (Runs-trans (round collect) (after here (ground arith)) (
            lands reading_chunk_size _ n s (at + 1 + length cs) _ _ v' refl
              (digits_run cs (xs ++ (13 ∷ 10 ∷ rest)) s d (at + 1) h (omega arith))))
          (extension_run xs (10 ∷ rest) s n (at + 1 + length cs) x))
        (ground arith))

data_round_lem :
    (y : ℕ) (ys rest s : Bytes) (at : ℕ)
    → round collect (cursor chunk_data (suc (length ys)) s at (y ∷ (ys ++ rest)))
      ≡ more (cursor after_chunk_data (suc (length ys)) (s ++ (y ∷ ys)) (at + suc (length ys)) rest)
unfolding round_in
data_round_lem y ys rest s at = ground (
  arith,
  length-append ys rest,
  take-append (length ys) ys rest (omega arith),
  take-length ys,
  drop-length ys,
  drop-append (length ys) ys rest (omega arith),
)

-- The data of a chunk and its line end, in one round and two.
content_run :
    (ys rest s : Bytes) (at : ℕ)
    → 0 < length ys
    → Goes
        (cursor chunk_data (length ys) s at (ys ++ (13 ∷ 10 ∷ rest)))
        (cursor chunk_size (length ys) (s ++ ys) (at + length ys + 1 + 1) rest)
unfolding round_in
content_run [] rest s at h = absurd (omega arith)
content_run (y ∷ ys) rest s at h =
    Runs-trans (round collect) (after here (data_round_lem y ys (13 ∷ 10 ∷ rest) s at)) (
      after
        {t = cursor cr_after_chunk_data (suc (length ys)) (s ++ (y ∷ ys)) (at + suc (length ys) + 1)
          (10 ∷ rest)}
        (after here (ground arith)) (ground arith))

-- A whole chunk.
chunk_run :
    (k : Chunk) (rest s : Bytes) (m at : ℕ)
    → IsChunk k
    → (a : ℕ) × Goes
        (cursor chunk_size m s at (encode_chunk k rest))
        (cursor chunk_size (length k.content) (s ++ k.content) a rest)
unfolding after_size
chunk_run k rest s m at h =
    let n = length k.content in
    let at' = at + length k.digits + length k.extension + 2 in
    let st : after_size n ≡ chunk_data = rw (lt→ltb 0 n h.not_empty) in
    (
      at' + n + 1 + 1,
      Runs-trans (round collect)
          (arrives (ap (λ st. cursor st n s at' (k.content ++ (13 ∷ 10 ∷ rest))) st) (
            size_line_run k.digits k.extension (k.content ++ (13 ∷ 10 ∷ rest)) s m n at h.numeral
              h.extended))
          (content_run k.content rest s at' h.not_empty),
    )

chunks_run :
    (ks : List Chunk) (rest s : Bytes) (m at : ℕ)
    → All IsChunk ks
    → (n : ℕ) × (a : ℕ) × Goes
        (cursor chunk_size m s at (encode_chunks ks rest))
        (cursor chunk_size n (s ++ contents ks) a rest)
chunks_run [] rest s m at h = (m, at, rw append-nil here)
chunks_run (k ∷ ks) rest s m at (h, hs) =
    let (a, one) = chunk_run k (encode_chunks ks rest) s m at h in
    let (n, b, others) = chunks_run ks rest (s ++ k.content) (length k.content) a hs in
    (
      n,
      b,
      Runs-trans (round collect) one (
          arrives (ap (λ d. cursor chunk_size n d b rest) (append_assoc s k.content (contents ks)))
            others),
    )

line_start :
    (c : ℕ) (cs s : Bytes) (n at : ℕ)
    → IsText c
    → Goes (cursor trailer n s at (c ∷ cs)) (cursor entity_header n s (at + 1) cs)
unfolding round_in
line_start c cs s n at h = after here (ground arith)

lines_run :
    (ls : List Bytes) (rest s : Bytes) (n at : ℕ)
    → All IsLine ls
    → (a : ℕ) × Goes
        (cursor trailer n s at (encode_lines ls rest))
        (cursor cr_after_trailer n s a (10 ∷ rest))
unfolding round_in
lines_run [] rest s n at h = (at + 1, after here (ground arith))
lines_run ([] ∷ ls) rest s n at ((ne, h), hs) = absurd (ne refl)
lines_run ((c ∷ cs) ∷ ls) rest s n at ((ne, (h, t)), hs) =
    let next' = 13 ∷ 10 ∷ encode_lines ls rest in
    let at' = at + 1 + length cs in
    let (a, others) = lines_run ls rest s n (at' + 1 + 1) hs in
    (
      a,
      Runs-trans (round collect)
          (after {t = cursor cr_after_entity_header n s (at' + 1) (10 ∷ encode_lines ls rest)}
            (after
              (Runs-trans (round collect) (line_start c (cs ++ next') s n at h)
                (text_run cs next' s n (at + 1) line_text t))
              (ground arith))
            (ground arith))
          others,
    )

body_run :
    (ks : List Chunk) (e : Ending) (rest s : Bytes)
    → All IsChunk ks
    → IsEnding e
    → (a : ℕ) × Goes
        (cursor chunk_size 0 s 0 (encode_chunks ks (encode_ending e rest)))
        (cursor cr_after_trailer 0 (s ++ contents ks) a (10 ∷ rest))
unfolding after_size
body_run ks e rest s hs h =
    let (m, a, chunks) = chunks_run ks (encode_ending e rest) s 0 0 hs in
    let a' = a + length e.zeros + length e.note + 2 in
    let (b, lines) = lines_run e.lines rest (s ++ contents ks) 0 a' h.trailers in
    (
      b,
      Runs-trans (round collect) chunks (
          Runs-trans (round collect)
            (size_line_run e.zeros e.note (encode_lines e.lines rest) (s ++ contents ks) m 0 a
              h.numeral h.extended)
            lines),
    )

-- The parser at the end of a response.
abbrev pub ended : Parser
ended = record { state = cr_after_trailer; size = 0 }

pub last_round :
    (rest s : Bytes) (a : ℕ)
    → round collect (cursor cr_after_trailer 0 s a (10 ∷ rest))
      ≡ stop (end_of_response (a + 1) ended s)
unfolding round_in
last_round rest s a = ground arith

-- What `parse_chunk` makes of a body that RFC 2616 (3.6.1) allows, with anything behind it: it ends,
-- the callback has had the data of the chunks in order, and the size that it stores counts
-- the bytes up to what stands behind the body.
pub parse_chunk-encode :
    (ks : List Chunk) (e : Ending) (rest s : Bytes)
    → All IsChunk ks
    → IsEnding e
    → (size : ℕ) × (parse_chunk collect reset s (encode_chunks ks (encode_ending e rest))
        ≡ some (end_of_response size ended (s ++ contents ks)))
      × (size + length rest ≡ length (encode_chunks ks (encode_ending e rest)))
unfolding parse_chunk
parse_chunk-encode ks e rest s hs h =
    let input = encode_chunks ks (encode_ending e rest) in
    let (a, run) = body_run ks e rest s hs h in
    (
      a + 1,
      loop_returns (round collect) rounds_left (round_falls collect) (2 * length input + 2)
          (ground arith) run (last_round rest (s ++ contents ks) a),
      omega (arith, Goes-at run),
    )
