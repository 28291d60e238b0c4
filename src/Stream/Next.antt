-- ===== src/Stream/Next.antt =====
-- Next and Drain.
use stellar_xdr_lens.Prelude.{ℕ, zero, suc, ◌+◌, true, ◌&&◌, [], ◌∷◌, Text, length, if◌then◌else◌}
use stellar_xdr_lens.Errors.{invalid_framing, stream_closed, is_eof, Result, ok, err, stuck}
use stellar_xdr_lens.Stream.Parser.{
  StreamFraming, framing_auto, framing_record_marking, framing_length_prefixed,
  framing_base64_lines, StreamParser, is_auto, effective_framing, detect_framing,
}
use stellar_xdr_lens.Stream.Read.{read_record_marking, read_length_prefixed, read_base64_line}

-- The switch of Next over the framings.
unfoldable pub read_record : StreamFraming → StreamParser → Result Text × StreamParser
read_record framing_record_marking p = read_record_marking p
read_record framing_length_prefixed p = read_length_prefixed p
read_record framing_base64_lines p = read_base64_line p
read_record framing_auto p = (err (invalid_framing ∷ []), p)

-- What Next does with the outcome: an end of file closes the parser, a record is counted. The
-- unrecognised framing returns before that, and its error is no end of file.
unfoldable pub settle : Result Text × StreamParser → Result Text × StreamParser
settle (ok r, p) = (ok r, record p { chunk_index = p.chunk_index + 1 })
settle (err e, p) = (err e, if is_eof e then record p { closed = true } else p)
settle (stuck, p) = (stuck, p)

unfoldable pub with_detected : StreamParser → Result StreamFraming → Result StreamParser
with_detected p (ok f) = ok (record p { detected = f })
with_detected p (err e) = err e
with_detected p stuck = stuck

-- The framing is detected before the first record.
unfoldable pub ensure_detected : StreamParser → Result StreamParser
unfolding is_auto with_detected
ensure_detected p =
    if is_auto p.framing && is_auto p.detected then with_detected p (detect_framing p) else ok p

-- An error of the detection leaves the parser as it was.
unfoldable pub after_detection : StreamParser → Result StreamParser → Result Text × StreamParser
after_detection p (ok q) = settle (read_record (effective_framing q) q)
after_detection p (err e) = (err e, p)
after_detection p stuck = (stuck, p)

unfoldable pub next : StreamParser → Result Text × StreamParser
next p = if p.closed then (err (stream_closed ∷ []), p) else after_detection p (ensure_detected p)

-- The count of Drain, and its error: none after an end of file.
pub record Drained : Type 0 where
  pub count : ℕ
  pub outcome : Result (Unit {0})
  pub parser : StreamParser

unfoldable pub drain_step : (ℕ → StreamParser → Drained) → ℕ → Result Text × StreamParser → Drained
drain_step more n (ok t, p) = more (n + 1) p
drain_step more n (err e, p) = record {
  count = n;
  outcome = if is_eof e then ok tt else err e;
  parser = p;
}
drain_step more n (stuck, p) = record { count = n; outcome = stuck; parser = p }

-- Every record takes a byte of the input at least, so its length is fuel enough.
unfoldable pub drain_loop : ℕ → ℕ → StreamParser → Drained
drain_loop zero n p = record { count = n; outcome = stuck; parser = p }
drain_loop (suc fuel) n p = drain_step (drain_loop fuel) n (next p)

unfoldable pub drain : StreamParser → Drained
drain p = drain_loop (suc (length p.input)) 0 p
