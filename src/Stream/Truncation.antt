-- ===== src/Stream/Truncation.antt =====
-- A stream that ends between the header of a length-prefixed record and its data.
use stellar_xdr_lens.Prelude.{
  ◌^◌, ◌≤◌, ◌<◌, ◌≡◌, ◌∙◌, ◌∷◌, [], refl, ℕ, sym, append-nil, ltb-false, false, ap,
}
use stellar_xdr_lens.Stream.Parser.{StreamParser, framing_length_prefixed, is_auto}
use stellar_xdr_lens.Encoding.Big.{put_uint32_be, length-put_uint32_be, uint32_be-put}
use stellar_xdr_lens.Errors.{eof, err, premature_eof, is_eof, is_eof_sentinel}
use stellar_xdr_lens.Stream.Read.{read_length_prefixed, length_header, length_body}
use stellar_xdr_lens.Stream.ReadFull.{advance, read_full-prefix, read_full_nothing}
use stellar_xdr_lens.Stream.Replay.{Drains, next_configured}
use stellar_xdr_lens.Stream.Next.{drain, next, read_record, drain_loop, settle, drain_step}

-- The reader's error wraps io.EOF beside ErrPrematureEOF.
truncated_error :
    (p : StreamParser) (n : ℕ)
    → p.input ≡ put_uint32_be n
    → 0 < n
    → n ≤ p.max_record_size
    → n < 2 ^ 32
    → read_length_prefixed p ≡ (err (premature_eof ∷ eof ∷ []), advance p [] 4)
truncated_error p n e pos fits small =
    let header = put_uint32_be n in
    let e' = e ∙ sym (append-nil header) in
    unfold read_length_prefixed in
    rw (read_full-prefix p 4 header [] e' (length-put_uint32_be n)) (
      unfold length_header in
      rw
        (
          uint32_be-put n small,
          ltb-false p.max_record_size n fits,
          read_full_nothing (advance p [] 4) n refl pos,
        )
        (unfold length_body in refl))

-- A parser is open, its framing is set to length prefixes, not detected, and its input is one header of
-- four bytes and nothing else, for a length that is positive, within the parser's limit and below 2^32.
-- Then Drain reports no error and no record, as at a clean end of the stream, although the error of Next
-- is ErrPrematureEOF that wraps io.EOF.
pub drain-truncated :
    (p : StreamParser) (n : ℕ)
    → p.closed ≡ false
    → p.framing ≡ framing_length_prefixed
    → p.input ≡ put_uint32_be n
    → 0 < n
    → n ≤ p.max_record_size
    → n < 2 ^ 32
    → (Drains 0 (drain p)) × ((next p).0 ≡ err (premature_eof ∷ eof ∷ []))
drain-truncated p n open_ framing e pos fits small =
    let known : is_auto p.framing ≡ false = unfold is_auto in rw framing in
    let read : read_record p.framing p ≡ (err (premature_eof ∷ eof ∷ []), advance p [] 4) =
      ap (λ f. read_record f p) framing
      ∙ (unfold read_record in truncated_error p n e pos fits small) in
    (
      (unfold drain drain_loop in
          rw (next_configured p open_ known, read)
            (unfold settle drain_step is_eof is_eof_sentinel in (refl, refl, refl))),
      rw (next_configured p open_ known, read) (unfold settle in refl),
    )
