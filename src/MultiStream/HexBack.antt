-- ===== src/MultiStream/HexBack.antt =====
-- WriteMultiStreamHex with DecodeMultiStream.
use stellar_xdr_lens.Prelude.{
  ◌∷◌, ◌++◌, [], ◌+◌, ◌*◌, ◌<◌, ◌≡◌, ◌∙◌, zero, suc, some, refl, Text, List, All, length, ℕ, arith,
  append-nil, length-append, ap, append_assoc, map,
}
use stellar_xdr_lens.Errors.{Result, is_eof, ok}
use stellar_xdr_lens.Encoding.Big.{Bytes}
use stellar_xdr_lens.MultiStream.Decoder.{
  all_records, decode_multi_stream, values_of, record_done, value_first, values_of_all, decode_all,
  default_max_record_buffer, MultiStreamRecord, not_empty, new_multi_stream_decoder,
  apply_multi_stream_options,
}
use stellar_xdr_lens.MultiStream.Write.{write_multi_stream_hex, written}
use stellar_xdr_lens.Encoding.Hex.{hex_encode}
use stellar_xdr_lens.HexInput.{then_bytes}
use stellar_xdr_lens.Encoding.Base64.{std_encode}
use stellar_xdr_lens.MultiStream.HexLines.{hex_record, reading, next_record-hex}
use stellar_xdr_lens.HexInput.Standard.{base64_to_hex-encode}

module _ {V : Type 0} (encode : V → Result Text) (decode : Text → Result V)
    (decode_as : Text → Text → Result V) where
  -- A value that is encoded as bytes, at least one, in standard base64, which fit into a line and from
  -- which Decode gives the value.
  pub record IsHexWritable (v : V) : Type 0 where
    pub as_bytes : Text
    pub bytes_are_bytes : Bytes as_bytes
    pub bytes_positive : 0 < length as_bytes
    pub bytes_fit : 2 * length as_bytes < default_max_record_buffer
    pub is_encoded : encode v ≡ ok (std_encode as_bytes)
    pub is_decoded : decode (std_encode as_bytes) ≡ ok v

  hex_text : (vs : List V) → All IsHexWritable vs → Text
  hex_text [] h = []
  hex_text (v ∷ vs) (w, h) = hex_encode w.as_bytes ++ b'\n' ∷ hex_text vs h

  hex_records : (vs : List V) → All IsHexWritable vs → ℕ → ℕ → List (MultiStreamRecord V)
  hex_records [] h lines count = []
  hex_records (v ∷ vs) (w, h) lines count =
      hex_record decode decode_as v (hex_encode w.as_bytes) (lines + 1) count
      ∷ hex_records vs h (lines + 1) (count + 1)

  write_multi_stream_hex-text :
      (vs : List V) (h : All IsHexWritable vs)
      → write_multi_stream_hex encode (map some vs) ≡ (hex_text vs h, ok tt)
  unfolding write_multi_stream_hex written then_bytes hex_text
  write_multi_stream_hex-text [] h = refl
  write_multi_stream_hex-text (v ∷ vs) (w, h) =
      rw
        (
          w.is_encoded,
          base64_to_hex-encode w.as_bytes w.bytes_are_bytes w.bytes_positive,
          write_multi_stream_hex-text vs h,
        )
        refl

  all_records-hex :
      (fuel : ℕ) (records : List (MultiStreamRecord V)) (vs : List V) (h : All IsHexWritable vs)
      (lines count : ℕ)
      → length (hex_text vs h) < fuel
      → all_records decode decode_as fuel records (reading (hex_text vs h) lines count)
        ≡ ok (records ++ hex_records vs h lines count)
  unfolding all_records record_done is_eof hex_text hex_records
  all_records-hex zero records vs h lines count lt = absurd (omega (arith, lt))
  all_records-hex (suc fuel) records [] h lines count lt = rw (append-nil records) refl
  all_records-hex (suc fuel) records (v ∷ vs) (w, h) lines count lt =
      let s = hex_encode w.as_bytes in
      let rec = hex_record decode decode_as v s (lines + 1) count in
      let size = length-append {0} s (b'\n' ∷ hex_text vs h) in
      rw
        (next_record-hex decode decode_as w.as_bytes (hex_text vs h) v lines count w.bytes_are_bytes
          w.bytes_positive w.bytes_fit w.is_decoded)
        (all_records-hex fuel (records ++ rec ∷ []) vs h (lines + 1) (count + 1)
            (omega (arith, lt, size))
          ∙ ap ok (append_assoc records (rec ∷ []) (hex_records vs h (lines + 1) (count + 1))))

  values_of-hex :
      (vs : List V) (h : All IsHexWritable vs) (lines count : ℕ)
      → values_of decode decode_as (hex_records vs h lines count) ≡ ok vs
  unfolding values_of value_first hex_records
  values_of-hex [] h lines count = refl
  values_of-hex (v ∷ vs) (w, h) lines count = rw (values_of-hex vs h (lines + 1) (count + 1)) refl

  decode_multi_stream-text :
      (v : V) (vs : List V) (h : All IsHexWritable (v ∷ vs))
      → decode_multi_stream decode decode_as (hex_text (v ∷ vs) h) [] ≡ ok (v ∷ vs)
  unfolding decode_multi_stream values_of_all decode_all not_empty new_multi_stream_decoder
      apply_multi_stream_options hex_records
  decode_multi_stream-text v vs (w, h) =
      let s = hex_text (v ∷ vs) (w, h) in
      rw (all_records-hex (suc (length s)) [] (v ∷ vs) (w, h) 0 0 (omega arith))
        (values_of-hex (v ∷ vs) (w, h) 0 0)

  -- Values that are encoded as standard base64 of bytes and decoded from it, at least one, none of them
  -- longer than a line, are written by WriteMultiStreamHex without an error, and DecodeMultiStream with
  -- the default options reads them back.
  pub decode_multi_stream-write_hex :
      (v : V) (vs : List V)
      → All IsHexWritable (v ∷ vs)
      → let (out, outcome) = write_multi_stream_hex encode (map some (v ∷ vs)) in
        (outcome ≡ ok tt) × (decode_multi_stream decode decode_as out [] ≡ ok (v ∷ vs))
  decode_multi_stream-write_hex v vs h =
      rw (write_multi_stream_hex-text (v ∷ vs) h) (refl, decode_multi_stream-text v vs h)
