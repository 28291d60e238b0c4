-- ===== src/MultiStream/Advance.antt =====
-- Next on every stream, where the decoder of payloads returns.
use stellar_xdr_lens.MultiStream.Numbering.{advanced, no_record}
use stellar_xdr_lens.Prelude.{
  ◌+◌, ◌≤◌, ◌<◌, ◌≡◌, ◌&&◌, ◌||◌, ◌==◌, zero, suc, true, false, refl, Bool, Text, length, arith, ℕ,
  Bool-cases, inl, inr, if-holds, codes, sym, ap, has_prefix, or_false,
}
use stellar_xdr_lens.MultiStream.Decoder.{
  MultiStreamDecoder, after_scan, decode_stream_line, line_read, next_lines, next_record, or_hex,
  record_of, then_decode, MultiStreamRecord, decode_hex, is_comment, decode_hex_as,
}
use stellar_xdr_lens.Errors.{Result, Ends, ends_ok, ends_err}
use stellar_xdr_lens.MultiStream.Numbering.{Advanced, no_record}
use stellar_xdr_lens.MultiStream.Scanner.{
  Scanned, scan-Shorter, Shorter, shorter_line, no_room, no_line,
}
use stellar_xdr_lens.HexInput.Laws.{hex_to_base64-Ends}
use stellar_xdr_lens.HexInput.{is_hex_string}
use stellar_xdr_lens.Encoding.Space.{trim_space}

not_empty_text : (s : Text) → (length s == 0) ≡ false → 0 < length s
not_empty_text s h = ground (arith, h)

-- A decoder that has skipped lines since `old`.
pub record Later (old d : MultiStreamDecoder) : Type 0 where
  pub same_count : old.record_count ≡ d.record_count
  pub no_earlier : old.line_num ≤ d.line_num
  pub same_comments : old.comment_chars ≡ d.comment_chars
  pub no_longer : length d.source ≤ length old.source

module _ {V : Type 0} (decode : Text → Result V) (decode_as : Text → Text → Result V)
    (decode_ends : (s : Text) → Ends (decode s))
    (decode_as_ends : (s t : Text) → Ends (decode_as s t)) where
  then_decode-Ends :
      {out : Result Text} (f : Text → Result V)
      → Ends out
      → ((b : Text) → Ends (f b))
      → Ends (then_decode decode decode_as out f)
  unfolding then_decode
  then_decode-Ends f (ends_ok b) h = h b
  then_decode-Ends f (ends_err e) h = ends_err e

  or_hex-Ends :
      (again : Bool) {x y : Result V} → Ends x → Ends y → Ends (or_hex decode decode_as again x y)
  unfolding or_hex
  or_hex-Ends true (ends_ok v) k = ends_ok v
  or_hex-Ends true (ends_err e) (ends_ok v) = ends_ok v
  or_hex-Ends true (ends_err e) (ends_err e') = ends_err e
  or_hex-Ends false h k = h

  decode_stream_line-Ends :
      (d : MultiStreamDecoder) (s : Text) → Ends (decode_stream_line decode decode_as d s)
  unfolding decode_stream_line decode_hex decode_hex_as
  decode_stream_line-Ends d s =
      let b64 = hex_to_base64-Ends s in
      let by_hex = then_decode-Ends decode b64 decode_ends in
      let by_hex_as =
        then_decode-Ends (λ t. decode_as t d.type_name) b64 (λ t. decode_as_ends t d.type_name) in
      let hex = d.allow_hex && is_hex_string s in
      let no_type = length d.type_name == 0 in
      if-holds {A = Result V} Ends (has_prefix s (codes "0x") || (has_prefix s (codes "0X") || hex))
        (if-holds {A = Result V} Ends no_type by_hex by_hex_as)
        (if-holds {A = Result V} Ends no_type (or_hex-Ends hex (decode_ends s) by_hex)
          (or_hex-Ends hex (decode_as_ends s d.type_name) by_hex_as))

  record_of-Advanced :
      (old d : MultiStreamDecoder) (s : Text) {out : Result V}
      → Ends out
      → 0 < length s
      → is_comment d.comment_chars s ≡ false
      → old.record_count ≡ d.record_count
      → old.line_num < d.line_num
      → old.comment_chars ≡ d.comment_chars
      → length d.source < length old.source
      → Advanced old (
        record_of decode decode_as d d.record_count s out,
        record d { record_count = d.record_count + 1 },
      )
  unfolding record_of
  record_of-Advanced old d s (ends_ok v) h c n l p q = advanced (record {
    index_is_count = sym n;
    line_is_later = l;
    line_not_blank = h;
    line_no_comment = rw p c;
    counted_on = ap (λ k. k + 1) (sym n);
    line_kept = refl;
    comments_kept = sym p;
    source_shorter = q;
  })
  record_of-Advanced old d s (ends_err e) h c n l p q = elim (Bool-cases d.stop_on_error) [
    | inl stop ↦ rw stop no_record
    | inr go_on ↦ rw go_on (
        advanced (record {
          index_is_count = sym n;
          line_is_later = l;
          line_not_blank = h;
          line_no_comment = rw p c;
          counted_on = ap (λ k. k + 1) (sym n);
          line_kept = refl;
          comments_kept = sym p;
          source_shorter = q;
        }))
  ]

  line_read-Advanced :
      (old d : MultiStreamDecoder) (s : Text)
      (go_on : MultiStreamDecoder → Result (MultiStreamRecord V) × MultiStreamDecoder)
      → Later old d
      → old.line_num < d.line_num
      → length d.source < length old.source
      → Advanced old (go_on d)
      → Advanced old (line_read decode decode_as go_on d s)
  unfolding line_read
  line_read-Advanced old d s go_on k l q h =
      elim (Bool-cases ((length s == 0) || is_comment d.comment_chars s)) [
        | inl skip ↦ rw skip h
        | inr keep ↦
            let (filled, plain) = or_false (length s == 0) (is_comment d.comment_chars s) keep in
            rw keep (
              record_of-Advanced old d s (decode_stream_line-Ends d s) (not_empty_text s filled)
                plain k.same_count l k.same_comments q)
      ]

  after_scan-Advanced :
      (old d : MultiStreamDecoder)
      (go_on : MultiStreamDecoder → Result (MultiStreamRecord V) × MultiStreamDecoder)
      {sc : Scanned}
      → Shorter d.source sc
      → Later old d
      → ((d' : MultiStreamDecoder)
          → Later old d'
          → length d'.source < length d.source
          → Advanced old (go_on d'))
      → Advanced old (after_scan decode decode_as go_on d sc)
  unfolding after_scan
  after_scan-Advanced old d go_on (shorter_line {t = t} {rest = rest} lt) k h =
      let d' : MultiStreamDecoder = record d { source = rest; line_num = d.line_num + 1 } in
      let later : Later old d' = record {
        same_count = k.same_count;
        no_earlier = omega (arith, k.no_earlier);
        same_comments = k.same_comments;
        no_longer = omega (arith, k.no_longer, lt);
      } in
      line_read-Advanced old d' (trim_space t) go_on later (omega (arith, k.no_earlier))
        (omega (arith, k.no_longer, lt)) (h d' later lt)
  after_scan-Advanced old d go_on no_room k h = no_record
  after_scan-Advanced old d go_on no_line k h = no_record

  next_lines-Advanced :
      (fuel : ℕ) (old d : MultiStreamDecoder)
      → Later old d
      → length d.source < fuel
      → Advanced old (next_lines decode decode_as fuel d)
  unfolding next_lines
  next_lines-Advanced zero old d k h = absurd (omega (arith, h))
  next_lines-Advanced (suc fuel) old d k h =
      after_scan-Advanced old d (next_lines decode decode_as fuel)
        (scan-Shorter d.max_buffer d.source) k
        (λ d' k' lt. next_lines-Advanced fuel old d' k' (omega (arith, h, lt)))

  pub next_record-Advanced : (d : MultiStreamDecoder) → Advanced d (next_record decode decode_as d)
  unfolding next_record
  next_record-Advanced d =
      next_lines-Advanced (suc (length d.source)) d d
        (record {
          same_count = refl;
          no_earlier = omega arith;
          same_comments = refl;
          no_longer = omega arith;
        })
        (omega arith)
