-- ===== src/Stream/Lines.antt =====
-- WriteBase64Line with readBase64Line.
use stellar_xdr_lens.Prelude.{
  ◌+◌, ◌%◌, ◌^◌, ◌≤◌, ◌<◌, ◌≡◌, ◌∷◌, ◌++◌, [], true, refl, Text, ℕ, All, length, arith, eq_false,
  ltb-false, sym, append_assoc, length-append, ◌∙◌, if◌then◌else◌, none, some, ap, take-append,
  drop-append, ltb,
}
use stellar_xdr_lens.Encoding.Base64.{std_encode}
use stellar_xdr_lens.Stream.Parser.{StreamParser}
use stellar_xdr_lens.Stream.Read.{
  decode_line, has_newline, line_length, read_string, read_base64_line, base64_lines, line_done,
}
use stellar_xdr_lens.Encoding.Big.{Bytes}
use stellar_xdr_lens.Stream.Write.{write_base64_line}
use stellar_xdr_lens.Encoding.Base64.RoundTrip.{
  IsDigit, std_decode-encode, std_encode-IsDigit, length-std_encode-pos,
}
use stellar_xdr_lens.Errors.{ok, Result, err, invalid_framing, corrupt_input, record_too_large}
use stellar_xdr_lens.Stream.ReadFull.{advance}
use stellar_xdr_lens.Encoding.Space.Digits.{trim_space-newline}
use stellar_xdr_lens.Stream.Fragments.{same_outcome}

line_length-IsDigit : (s t : Text) → All IsDigit s → line_length (s ++ b'\n' ∷ t) ≡ length s + 1
unfolding line_length
line_length-IsDigit [] t h = refl
line_length-IsDigit (c ∷ s) t (hc, h) =
    rw (eq_false c b'\n' (omega arith)) (omega (arith, line_length-IsDigit s t h))

has_newline-IsDigit : (s t : Text) → All IsDigit s → has_newline (s ++ b'\n' ∷ t) ≡ true
unfolding has_newline
has_newline-IsDigit [] t h = refl
has_newline-IsDigit (c ∷ s) t (hc, h) =
    rw (eq_false c b'\n' (omega arith), has_newline-IsDigit s t h)

read_string-line :
    (p : StreamParser) (s rest : Text)
    → p.input ≡ s ++ b'\n' ∷ rest
    → All IsDigit s
    → read_string p ≡ (s ++ b'\n' ∷ [], true, advance p rest (length s + 1))
unfolding read_string
read_string-line p s rest e h =
    let whole : s ++ b'\n' ∷ rest ≡ (s ++ b'\n' ∷ []) ++ rest =
      sym (append_assoc s (b'\n' ∷ []) rest) in
    let n : length (s ++ b'\n' ∷ []) ≡ length s + 1 =
      omega (arith, length-append {0} s (b'\n' ∷ [])) in
    rw (e, line_length-IsDigit s rest h, has_newline-IsDigit s rest h)
      (rw (
        whole,
        take-append (length s + 1) (s ++ b'\n' ∷ []) rest n,
        drop-append (length s + 1) (s ++ b'\n' ∷ []) rest n,
      ))

decode_line-encode :
    (max : ℕ) (rec : Text)
    → Bytes rec
    → length rec ≤ max
    → length rec < 2 ^ 32
    → decode_line max (std_encode rec) ≡ ok rec
unfolding decode_line
decode_line-encode max rec bytes fits small =
    let whole : length rec % 2 ^ 32 ≡ length rec = omega arith in
    ap
      (λ found. elim found as (λ _. Result Text) [
        | none ↦ err (invalid_framing ∷ corrupt_input ∷ [])
        | some out ↦ if ltb max (length out % 2 ^ 32) then err (record_too_large ∷ []) else ok out
      ])
      (std_decode-encode rec bytes)
    ∙ rw (whole, ltb-false max (length rec) fits)

-- A record of bytes that is not empty, written as a base64 line, is read back whole, and the parser
-- has taken exactly the line. The record must be within the limit and have less than 2^32 bytes.
pub read_base64_line-write :
    (p : StreamParser) (rec rest : Text)
    → p.input ≡ write_base64_line rec ++ rest
    → Bytes rec
    → 0 < length rec
    → length rec ≤ p.max_record_size
    → length rec < 2 ^ 32
    → read_base64_line p ≡ (ok rec, advance p rest (length (write_base64_line rec)))
read_base64_line-write p rec rest e bytes pos fits small =
    let enc = std_encode rec in
    let digits : All IsDigit enc = std_encode-IsDigit rec bytes in
    let some_digit : 0 < length enc = length-std_encode-pos rec pos in
    let line : p.input ≡ enc ++ b'\n' ∷ rest =
      e ∙ (unfold write_base64_line in append_assoc enc (b'\n' ∷ []) rest) in
    let written : length enc + 1 ≡ length (write_base64_line rec) =
      unfold write_base64_line in omega (arith, length-append {0} enc (b'\n' ∷ [])) in
    unfold read_base64_line base64_lines in
    rw (read_string-line p enc rest line digits) (
      unfold line_done in
      rw
        (
          trim_space-newline enc some_digit digits,
          eq_false (length enc) 0 (omega arith),
          decode_line-encode p.max_record_size rec bytes fits small,
        )
        (same_outcome p rest refl (ap (λ n. p.total_bytes + n) written)))
