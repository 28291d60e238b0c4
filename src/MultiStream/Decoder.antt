-- ===== src/MultiStream/Decoder.antt =====
-- MultiStreamDecoder: its options, Next, and the decoders of whole streams. Decoding a payload is left
-- open: `decode` stands for Decode and `decode_as` for DecodeAs.
use stellar_xdr_lens.Prelude.{
  ◌+◌, ◌*◌, ◌&&◌, ◌||◌, ◌∷◌, ◌++◌, if◌then◌else◌, ◌==◌, zero, suc, [], true, false, none, some,
  List, Text, ℕ, Bool, Option, codes, ltb, length, has_prefix,
}
use stellar_xdr_lens.Errors.{
  Result, Error, err, is_eof, ok, stuck, corrupt_multi_stream_record, empty_multi_stream,
  token_too_long, eof,
}
use stellar_xdr_lens.Encoding.Space.{trim_space}
use stellar_xdr_lens.HexInput.{hex_to_base64, is_hex_string}
use stellar_xdr_lens.MultiStream.Scanner.{scan, Scanned, line, too_long, at_end}

pub record MultiStreamDecoder : Type 0 where
  pub source : Text
  pub max_buffer : ℕ
  pub type_name : Text
  pub allow_hex : Bool
  pub stop_on_error : Bool
  pub comment_chars : List Text
  pub line_num : ℕ
  pub record_count : ℕ

pub record MultiStreamRecord (V : Type 0) : Type 0 where
  pub record_index : ℕ
  pub line_number : ℕ
  pub raw_line : Text
  pub record_value : Option V
  pub record_err : Option Error

pub data MultiStreamOption : Type 0 where
  with_multi_stream_type : Text → MultiStreamOption
  with_multi_stream_hex with_multi_stream_stop_on_error : Bool → MultiStreamOption
  with_multi_stream_comments : List Text → MultiStreamOption
  with_multi_stream_max_buffer : ℕ → MultiStreamOption

abbrev pub default_max_record_buffer : ℕ
default_max_record_buffer = 16 * 1024 * 1024

-- The scanner uses the whole of its first buffer, however small the limit is.
unfoldable pub buffer_of : ℕ → ℕ
buffer_of max_bytes = if ltb max_bytes (64 * 1024) then 64 * 1024 else max_bytes

unfoldable pub apply_multi_stream_option :
    MultiStreamOption → MultiStreamDecoder → MultiStreamDecoder
unfolding buffer_of
apply_multi_stream_option (with_multi_stream_type t) d = record d { type_name = t }
apply_multi_stream_option (with_multi_stream_hex allow) d = record d { allow_hex = allow }
apply_multi_stream_option (with_multi_stream_stop_on_error stop) d = record d {
  stop_on_error = stop;
}
apply_multi_stream_option (with_multi_stream_comments prefixes) d = record d {
  comment_chars = d.comment_chars ++ prefixes;
}
apply_multi_stream_option (with_multi_stream_max_buffer n) d = record d { max_buffer = buffer_of n }

unfoldable pub apply_multi_stream_options :
    List MultiStreamOption → MultiStreamDecoder → MultiStreamDecoder
unfolding apply_multi_stream_option
apply_multi_stream_options [] d = d
apply_multi_stream_options (o ∷ os) d =
    apply_multi_stream_options os (apply_multi_stream_option o d)

unfoldable pub new_multi_stream_decoder : Text → List MultiStreamOption → MultiStreamDecoder
unfolding apply_multi_stream_options
new_multi_stream_decoder r opts = apply_multi_stream_options opts (record {
  source = r;
  max_buffer = default_max_record_buffer;
  type_name = [];
  allow_hex = true;
  stop_on_error = true;
  comment_chars = codes "#" ∷ codes "//" ∷ [];
  line_num = 0;
  record_count = 0;
})

unfoldable pub is_comment : List Text → Text → Bool
unfolding has_prefix
is_comment [] s = false
is_comment (p ∷ prefixes) s = has_prefix s p || is_comment prefixes s

-- A record's error, or its value in front of the others; a record without an error has a value.
unfoldable pub value_first :
    {V : Type 0} → Option Error → Option V → Result (List V) → Result (List V)
value_first (some e) v rest = err e
value_first none (some v) (ok vs) = ok (v ∷ vs)
value_first none (some v) (err e) = err e
value_first none (some v) stuck = stuck
value_first none none rest = rest

module _ {V : Type 0} (decode : Text → Result V) (decode_as : Text → Text → Result V) where
  unfoldable pub then_decode : Result Text → (Text → Result V) → Result V
  then_decode (ok b64) f = f b64
  then_decode (err e) f = err e
  then_decode stuck f = stuck

  -- DecodeHex and DecodeHexAs.
  unfoldable pub decode_hex : Text → Result V
  unfolding then_decode hex_to_base64
  decode_hex s = then_decode (hex_to_base64 s) decode

  unfoldable pub decode_hex_as : Text → Text → Result V
  unfolding then_decode hex_to_base64
  decode_hex_as s t = then_decode (hex_to_base64 s) (λ b64. decode_as b64 t)

  -- The second attempt at a payload that was no base64, whose own error is not reported.
  unfoldable pub or_hex : Bool → Result V → Result V → Result V
  or_hex true (err e) (ok v) = ok v
  or_hex true (err e) (err e') = err e
  or_hex true (err e) stuck = stuck
  or_hex true (ok v) again = ok v
  or_hex true stuck again = stuck
  or_hex false first again = first

  unfoldable pub decode_stream_line : MultiStreamDecoder → Text → Result V
  unfolding has_prefix is_hex_string decode_hex decode_hex_as or_hex
  decode_stream_line d s =
      let hex = d.allow_hex && is_hex_string s in
      if has_prefix s (codes "0x") || (has_prefix s (codes "0X") || hex)
      then (if length d.type_name == 0 then decode_hex s else decode_hex_as s d.type_name)
      else if length d.type_name == 0
      then or_hex hex (decode s) (decode_hex s)
      else or_hex hex (decode_as s d.type_name) (decode_hex_as s d.type_name)

  unfoldable pub record_of : MultiStreamDecoder → ℕ → Text → Result V → Result (MultiStreamRecord V)
  record_of d index s (ok v) = ok (record {
    record_index = index;
    line_number = d.line_num;
    raw_line = s;
    record_value = some v;
    record_err = none;
  })
  record_of d index s (err e) =
      if d.stop_on_error
      then err (corrupt_multi_stream_record ∷ e)
      else ok (record {
        record_index = index;
        line_number = d.line_num;
        raw_line = s;
        record_value = none;
        record_err = some e;
      })
  record_of d index s stuck = stuck

  -- A line has been read and trimmed, and counted.
  unfoldable pub line_read :
      (MultiStreamDecoder → Result (MultiStreamRecord V) × MultiStreamDecoder)
      → MultiStreamDecoder
      → Text
      → Result (MultiStreamRecord V) × MultiStreamDecoder
  unfolding is_comment decode_stream_line record_of
  line_read go_on d s =
      let skipped = go_on d in
      if (length s == 0) || is_comment d.comment_chars s then skipped else (
        record_of d d.record_count s (decode_stream_line d s),
        record d { record_count = d.record_count + 1 },
      )

  unfoldable pub after_scan :
      (MultiStreamDecoder → Result (MultiStreamRecord V) × MultiStreamDecoder)
      → MultiStreamDecoder
      → Scanned
      → Result (MultiStreamRecord V) × MultiStreamDecoder
  unfolding line_read trim_space
  after_scan go_on d (line t rest) =
      line_read go_on (record d { source = rest; line_num = d.line_num + 1 }) (trim_space t)
  after_scan go_on d too_long = (err (token_too_long ∷ []), d)
  after_scan go_on d at_end = (err (eof ∷ []), record d { source = [] })

  -- The loop of Next. A line takes a byte, so that the length of the input is fuel enough.
  unfoldable pub next_lines :
      ℕ → MultiStreamDecoder → Result (MultiStreamRecord V) × MultiStreamDecoder
  unfolding after_scan scan
  next_lines zero d = (stuck, d)
  next_lines (suc fuel) d = after_scan (next_lines fuel) d (scan d.max_buffer d.source)

  unfoldable pub next_record :
      MultiStreamDecoder → Result (MultiStreamRecord V) × MultiStreamDecoder
  unfolding next_lines
  next_record d = next_lines (suc (length d.source)) d

  unfoldable pub record_done :
      (List (MultiStreamRecord V) → MultiStreamDecoder → Result (List (MultiStreamRecord V)))
      → List (MultiStreamRecord V)
      → Result (MultiStreamRecord V) × MultiStreamDecoder
      → Result (List (MultiStreamRecord V))
  unfolding is_eof
  record_done go_on records (ok rec, d) = go_on (records ++ rec ∷ []) d
  record_done go_on records (err e, d) = if is_eof e then ok records else err e
  record_done go_on records (stuck, d) = stuck

  -- The loop of DecodeAll. A record takes a line.
  unfoldable pub all_records :
      ℕ → List (MultiStreamRecord V) → MultiStreamDecoder → Result (List (MultiStreamRecord V))
  unfolding record_done next_record
  all_records zero records d = stuck
  all_records (suc fuel) records d = record_done (all_records fuel) records (next_record d)

  unfoldable pub not_empty :
      Result (List (MultiStreamRecord V)) → Result (List (MultiStreamRecord V))
  not_empty (ok []) = err (empty_multi_stream ∷ [])
  not_empty (ok (rec ∷ records)) = ok (rec ∷ records)
  not_empty (err e) = err e
  not_empty stuck = stuck

  unfoldable pub decode_all : MultiStreamDecoder → Result (List (MultiStreamRecord V))
  unfolding not_empty all_records
  decode_all d = not_empty (all_records (suc (length d.source)) [] d)

  -- The loop over the records: the first error, or the values.
  unfoldable pub values_of : List (MultiStreamRecord V) → Result (List V)
  values_of [] = ok []
  values_of (rec ∷ records) = value_first rec.record_err rec.record_value (values_of records)

  unfoldable pub values_of_all : Result (List (MultiStreamRecord V)) → Result (List V)
  unfolding values_of
  values_of_all (ok records) = values_of records
  values_of_all (err e) = err e
  values_of_all stuck = stuck

  unfoldable pub decode_multi_stream : Text → List MultiStreamOption → Result (List V)
  unfolding values_of_all decode_all new_multi_stream_decoder
  decode_multi_stream r opts = values_of_all (decode_all (new_multi_stream_decoder r opts))
