-- ===== src/Fastcgi/Records.antt =====
-- http/fastcgi.cpp: what `process` makes of whole records.
use gweb_plusplus.Base.{
  ℕ, suc, ◌+◌, ◌*◌, ◌≤◌, ◌<◌, Bool, true, false, ◌||◌, List, [], ◌∷◌, ◌++◌, Option, some, ltb, ◌==◌,
  Bytes, length, length-append, All, loop_fuel, fun_ext, loop-more, loop-stop, arith, ◌≡◌, refl, ap,
  sym, ◌∙◌,
}
use gweb_plusplus.Fastcgi.{
  high, low, header_bytes, Header, read_header, Callbacks, dispatch, End, fails, after_record,
  process_record, process_round, with_buffer, process,
}
use gweb_plusplus.Fastcgi.Rounds.{process_round-falls}
use gweb_plusplus.Fastcgi.Decode.{drop-two, take-first}
use gweb_plusplus.Fastcgi.Split.{outcome, outcome-with_buffer}

pub record Record : Type 0 where
  pub type : ℕ
  pub id : ℕ
  pub content : Bytes
  pub padding : Bytes

-- The numbers fit their fields, and the type is one of the protocol's.
abbrev pub IsRecord : Record → Type 0
IsRecord r =
    (0 < r.type)
    × (r.type ≤ 11)
    × (r.id < 65536)
    × (length r.content < 65536)
    × (length r.padding < 256)

abbrev pub record_onto : Record → Bytes → Bytes
record_onto r rest =
    header_bytes r.type r.id (length r.content) (length r.padding)
    ++ (r.content ++ (r.padding ++ rest))

unfoldable pub records_onto : List Record → Bytes → Bytes
records_onto [] rest = rest
records_onto (r ∷ rs) rest = record_onto r (records_onto rs rest)

abbrev pub header_of : Record → Header
header_of r = record {
  version = 1;
  type = r.type;
  id = r.id;
  len = length r.content;
  padding = length r.padding;
}

two_bytes : (n : ℕ) → n < 65536 → high n * 256 + low n ≡ n
two_bytes n lt = omega arith

read_header-record_onto :
    (r : Record) (rest : Bytes)
    → IsRecord r
    → read_header (record_onto r rest) ≡ some (header_of r, r.content ++ (r.padding ++ rest))
unfolding read_header
read_header-record_onto r rest v =
    rw (two_bytes r.id v.2) (rw (two_bytes (length r.content) v.3) refl)

module _ {S : Type 0} (c : Callbacks S) where
  abbrev go_on : (S → Option (S × Bytes × End)) → S × Bool → Option (S × Bytes × End)
  go_on next (s, true) = next s
  go_on next (s, false) = some (s, [], fails)

  -- The calls for the records, up to the first that fails, and what comes behind them.
  unfoldable pub dispatch_all :
      List Record → (S → Option (S × Bytes × End)) → S → Option (S × Bytes × End)
  dispatch_all [] next s = next s
  dispatch_all (r ∷ rs) next s = go_on (dispatch_all rs next) (dispatch c s (header_of r) r.content)

  round-record_onto :
      (s : S) (r : Record) (rest : Bytes)
      → IsRecord r
      → process_round c (s, record_onto r rest)
        ≡ after_record c rest (dispatch c s (header_of r) r.content)
  unfolding process_round process_record
  round-record_onto s r rest v =
      let bytes = record_onto r rest in
      let whole : ltb (length (r.content ++ (r.padding ++ rest)))
            (length r.content + length r.padding)
          ≡ false =
        ground (arith, length-append r.content (r.padding ++ rest), length-append r.padding rest) in
      let known : (r.type == 0 || ltb 11 r.type) ≡ false = ground arith in
      ap (process_record c s bytes) (read_header-record_onto r rest v)
      ∙ rw known (
          rw whole (
            rw (drop-two r.content r.padding rest)
              (rw (take-first r.content (r.padding ++ rest)) refl)))

  process-round :
      (s : S) (bytes rest : Bytes) (x : S × Bool)
      → process_round c (s, bytes) ≡ after_record c rest x
      → length rest < length bytes
      → outcome c (process c s bytes) ≡ go_on (λ t. outcome c (process c t rest)) x
  unfolding process after_record
  process-round s bytes rest (t, false) e lt =
      ap (λ o. outcome c (with_buffer bytes o))
        (loop-stop (process_round c) (length bytes) {s = (s, bytes)} e)
  process-round s bytes rest (t, true) e lt =
      outcome-with_buffer c bytes _
      ∙ ap (outcome c) (
          loop-more (process_round c) (length bytes) {s = (s, bytes)} e
          ∙ loop_fuel (process_round c) (λ k. length k.1) (process_round-falls c) (length bytes)
              (suc (length rest)) (t, rest) lt (omega arith))
      ∙ sym (outcome-with_buffer c rest _)

  -- Records in their encoding, with anything behind them: `process` makes the call for each, in order, up to the
  -- first that fails, and goes on with what stands behind them as a call on that alone would.
  pub process-records_onto :
      (rs : List Record) (s : S) (tail : Bytes)
      → All IsRecord rs
      → outcome c (process c s (records_onto rs tail))
        ≡ dispatch_all rs (λ t. outcome c (process c t tail)) s
  unfolding records_onto dispatch_all
  process-records_onto [] s tail v = refl
  process-records_onto (r ∷ rs) s tail v =
      let rest = records_onto rs tail in
      process-round s (record_onto r rest) rest (dispatch c s (header_of r) r.content)
        (round-record_onto s r rest v.0)
        (omega (arith, length-append r.content (r.padding ++ rest), length-append r.padding rest))
      ∙ ap (λ f. go_on f (dispatch c s (header_of r) r.content))
          (fun_ext λ t. process-records_onto rs t tail v.1)
