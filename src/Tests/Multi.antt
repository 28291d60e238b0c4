-- ===== src/Tests/Multi.antt =====
-- Streams of multi_stream.go, written and read. The decoder of payloads is the identity at first.
use stellar_xdr_lens.Prelude.{
  ◌≡◌, ◌∷◌, [], true, false, refl, Text, codes, some, List, Option, All, arith,
}
use stellar_xdr_lens.MultiStream.Decoder.{
  MultiStreamDecoder, decode_multi_stream, decode_all, value_first,
}
use stellar_xdr_lens.MultiStream.Numbering.{AllRecords}
use stellar_xdr_lens.Errors.{ok, ends_ok, Result, err, empty_multi_stream}
use stellar_xdr_lens.MultiStream.Total.{decode_all-AllRecords}
use stellar_xdr_lens.HexInput.{decoded_hex}
use stellar_xdr_lens.MultiStream.Write.{write_multi_stream, write_multi_stream_hex}
use stellar_xdr_lens.Encoding.Base64.{std_decode, std_encode}
use stellar_xdr_lens.MultiStream.HexBack.{decode_multi_stream-write_hex, IsHexWritable}

abbrev lines : Text
lines = codes "# head\n\n GAAA \nHBBB\r\nICCC"

abbrev lines_decoder : MultiStreamDecoder
lines_decoder = record {
  source = lines;
  max_buffer = 64;
  type_name = [];
  allow_hex = false;
  stop_on_error = true;
  comment_chars = codes "#" ∷ [];
  line_num = 0;
  record_count = 0;
}

decode_all-AllRecords_example :
    AllRecords lines_decoder (decode_all (λ s. ok s) (λ s t. ok s) lines_decoder)
decode_all-AllRecords_example =
    decode_all-AllRecords (λ s. ok s) (λ s t. ok s) (λ s. ends_ok s) (λ s t. ends_ok s)
      lines_decoder

three_lines :
    decode_multi_stream (λ s. ok s) (λ s t. ok s) lines []
    ≡ ok (codes "GAAA" ∷ codes "HBBB" ∷ codes "ICCC" ∷ [])
unfolding decode_multi_stream value_first
three_lines = refl

-- Values that are their own bytes.
abbrev bytes_of : Text → Result Text
bytes_of s = decoded_hex (std_decode s)

abbrev encode_bytes : Text → Result Text
encode_bytes b = ok (std_encode b)

abbrev two_values : List (Option Text)
two_values = some (1 ∷ 2 ∷ 3 ∷ []) ∷ some (255 ∷ 0 ∷ []) ∷ []

hex_lines : write_multi_stream_hex encode_bytes two_values ≡ (codes "010203\nff00\n", ok tt)
unfolding write_multi_stream_hex std_encode
hex_lines = refl

hex_lines_back :
    decode_multi_stream bytes_of (λ s t. bytes_of s) (codes "010203\nff00\n") []
    ≡ ok ((1 ∷ 2 ∷ 3 ∷ []) ∷ (255 ∷ 0 ∷ []) ∷ [])
unfolding decode_multi_stream value_first decoded_hex std_decode
hex_lines_back = refl

-- Four bytes of ones are written as a line that the reader takes for a comment.
comment_line :
    write_multi_stream encode_bytes (some (255 ∷ 255 ∷ 255 ∷ 255 ∷ []) ∷ [])
    ≡ (codes "/////w==\n", ok tt)
unfolding write_multi_stream std_encode
comment_line = refl

comment_line_back :
    decode_multi_stream bytes_of (λ s t. bytes_of s) (codes "/////w==\n") []
    ≡ err (empty_multi_stream ∷ [])
unfolding decode_multi_stream value_first decoded_hex std_decode
comment_line_back = refl

-- Three bytes of zeros are written as a line of hexadecimal digits.
hex_digits_back :
    decode_multi_stream bytes_of (λ s t. bytes_of s) (codes "AAAA\n") []
    ≡ ok ((170 ∷ 170 ∷ []) ∷ [])
unfolding decode_multi_stream value_first decoded_hex std_decode
hex_digits_back = refl

two_values-Writable :
    All
      (IsHexWritable encode_bytes bytes_of (λ s t. bytes_of s))
      ((1 ∷ 2 ∷ 3 ∷ []) ∷ (255 ∷ 0 ∷ []) ∷ [])
unfolding decoded_hex std_decode std_encode
two_values-Writable = (
  record {
    as_bytes = 1 ∷ 2 ∷ 3 ∷ [];
    bytes_are_bytes = (omega arith, (omega arith, (omega arith, tt)));
    bytes_positive = omega arith;
    bytes_fit = omega arith;
    is_encoded = refl;
    is_decoded = refl;
  },
  (
    record {
      as_bytes = 255 ∷ 0 ∷ [];
      bytes_are_bytes = (omega arith, (omega arith, tt));
      bytes_positive = omega arith;
      bytes_fit = omega arith;
      is_encoded = refl;
      is_decoded = refl;
    },
    tt,
  ),
)

decode_multi_stream-write_hex_example :
    let (out, outcome) =
      write_multi_stream_hex encode_bytes (some (1 ∷ 2 ∷ 3 ∷ []) ∷ some (255 ∷ 0 ∷ []) ∷ []) in
    (outcome ≡ ok tt)
    × (decode_multi_stream bytes_of (λ s t. bytes_of s) out []
        ≡ ok ((1 ∷ 2 ∷ 3 ∷ []) ∷ (255 ∷ 0 ∷ []) ∷ []))
decode_multi_stream-write_hex_example =
    decode_multi_stream-write_hex encode_bytes bytes_of (λ s t. bytes_of s) (1 ∷ 2 ∷ 3 ∷ [])
      ((255 ∷ 0 ∷ []) ∷ []) two_values-Writable
