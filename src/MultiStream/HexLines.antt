-- ===== src/MultiStream/HexLines.antt =====
-- One line of hexadecimal digits, as WriteMultiStreamHex writes it, read by Next.
use stellar_xdr_lens.Prelude.{
  ◌∷◌, ◌++◌, [], ◌+◌, ◌*◌, ◌<◌, ◌≡◌, true, false, none, some, refl, Text, All, drop, ℕ, length,
  arith, codes, ap, ltb-true, take-append, eq_false, suc, or_true, has_prefix,
}
use stellar_xdr_lens.MultiStream.Decoder.{
  is_comment, MultiStreamDecoder, MultiStreamRecord, decode_stream_line, next_record, decode_hex,
  default_max_record_buffer, next_lines, after_scan, then_decode, line_read, record_of,
}
use stellar_xdr_lens.MultiStream.Scanner.{drop_cr, scan, line_up_to, line}
use stellar_xdr_lens.Tree.Path.{index_byte}
use stellar_xdr_lens.Errors.{Result, ok}
use stellar_xdr_lens.HexInput.Laws.{
  IsHexDigit, hex_encode-IsHexDigit, length-hex_encode, hex_digits,
}
use stellar_xdr_lens.Encoding.Big.{Bytes}
use stellar_xdr_lens.Encoding.Base64.{std_encode}
use stellar_xdr_lens.Encoding.Hex.{hex_encode}
use stellar_xdr_lens.HexInput.Standard.{is_hex_string-hex_encode, hex_to_base64-hex_encode}
use stellar_xdr_lens.Encoding.Space.Digits.{trim_space-All}

index_byte-hex :
    (s rest : Text) → All IsHexDigit s → index_byte b'\n' (s ++ b'\n' ∷ rest) ≡ some (length s)
unfolding index_byte
index_byte-hex [] rest h = refl
index_byte-hex (c ∷ s) rest (hc, h) = ground (arith, index_byte-hex s rest h)

drop_cr-hex : (s : Text) → All IsHexDigit s → drop_cr s ≡ s
unfolding drop_cr
drop_cr-hex [] h = refl
drop_cr-hex (c ∷ []) (hc, h) = ground arith
drop_cr-hex (c ∷ d ∷ s) (hc, h) = ap (λ t. c ∷ t) (drop_cr-hex (d ∷ s) h)

drop-line : (s rest : Text) → drop (length s + 1) (s ++ b'\n' ∷ rest) ≡ rest
drop-line [] rest = refl
drop-line (c ∷ s) rest =
    let next : length (c ∷ s) + 1 ≡ suc (length s + 1) = omega arith in rw next (drop-line s rest)

scan-hex :
    (limit : ℕ) (s rest : Text)
    → All IsHexDigit s
    → length s < limit
    → scan limit (s ++ b'\n' ∷ rest) ≡ line s rest
unfolding scan line_up_to
scan-hex limit s rest h fits =
    rw
      (
        index_byte-hex s rest h,
        ltb-true (length s) limit fits,
        take-append (length s) s (b'\n' ∷ rest) refl,
        drop_cr-hex s h,
        drop-line s rest,
      )
      refl

-- A decoder with the default options, somewhere in its input.
abbrev pub reading : Text → ℕ → ℕ → MultiStreamDecoder
reading s lines count = record {
  source = s;
  max_buffer = default_max_record_buffer;
  type_name = [];
  allow_hex = true;
  stop_on_error = true;
  comment_chars = codes "#" ∷ codes "//" ∷ [];
  line_num = lines;
  record_count = count;
}

is_comment-hex : (s : Text) → All IsHexDigit s → is_comment (codes "#" ∷ codes "//" ∷ []) s ≡ false
unfolding is_comment has_prefix
is_comment-hex [] h = refl
is_comment-hex (c ∷ s) (hc, h) = ground arith

module _ {V : Type 0} (decode : Text → Result V) (decode_as : Text → Text → Result V) where
  abbrev pub hex_record : V → Text → ℕ → ℕ → MultiStreamRecord V
  hex_record v s lines count = record {
    record_index = count;
    line_number = lines;
    raw_line = s;
    record_value = some v;
    record_err = none;
  }

  decode_stream_line-hex :
      (s : Text) (lines count : ℕ) (b : Text) (v : V)
      → Bytes b
      → 0 < length b
      → decode (std_encode b) ≡ ok v
      → decode_stream_line decode decode_as (reading s lines count) (hex_encode b) ≡ ok v
  unfolding decode_stream_line decode_hex then_decode
  decode_stream_line-hex s lines count b v h pos back =
      rw
        (
          is_hex_string-hex_encode b h pos,
          or_true (has_prefix (hex_encode b) (codes "0X")),
          or_true (has_prefix (hex_encode b) (codes "0x")),
          hex_to_base64-hex_encode b h pos,
        )
        back

  pub next_record-hex :
      (b rest : Text) (v : V) (lines count : ℕ)
      → Bytes b
      → 0 < length b
      → 2 * length b < default_max_record_buffer
      → decode (std_encode b) ≡ ok v
      → next_record decode decode_as (reading (hex_encode b ++ b'\n' ∷ rest) lines count)
        ≡ (ok (hex_record v (hex_encode b) (lines + 1) count), reading rest (lines + 1) (count + 1))
  unfolding next_record next_lines after_scan line_read record_of
  next_record-hex b rest v lines count h pos fits back =
      let digits = hex_encode-IsHexDigit b h in
      let two = length-hex_encode b in
      let some_digits : 0 < length (hex_encode b) = omega (arith, two, pos) in
      rw
        (
          scan-hex default_max_record_buffer (hex_encode b) rest digits (omega (arith, two, fits)),
          trim_space-All (hex_encode b) some_digits (hex_digits (hex_encode b) digits),
          eq_false (length (hex_encode b)) 0 (omega arith),
          is_comment-hex (hex_encode b) digits,
          decode_stream_line-hex rest (lines + 1) count b v h pos back,
        )
        refl
