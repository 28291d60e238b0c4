-- ===== src/Stdin.antt =====
-- pkg/lens/stdin_pipe.go: a piped payload, whose framing is probed before one of the two stream readers
-- gets it. The reader is the list of the bytes still to come.
pub mod Framed
pub mod Total
use stellar_xdr_lens.Prelude.{
  ◌∷◌, ◌++◌, [], ◌+◌, ◌-◌, ◌*◌, ◌&&◌, ◌||◌, if◌then◌else◌, ◌==◌, zero, suc, true, false, none, some,
  List, Option, Text, ℕ, Bool, codes, length, ltb, leb,
}
use stellar_xdr_lens.Errors.{Error, Result, empty_input, ok, err, is_eof, stuck}
use mathlib.Core.List.{reverse}
use stellar_xdr_lens.MultiStream.Decoder.{
  MultiStreamRecord, next_record, MultiStreamDecoder, new_multi_stream_decoder,
}
use stellar_xdr_lens.Encoding.Base64.{std_encode}
use stellar_xdr_lens.Stream.Next.{next}
use stellar_xdr_lens.Stream.Parser.{new_stream_parser, StreamParser}

pub data StdinFraming : Type 0 where
  framing_unknown framing_lines framing_binary : StdinFraming

unfoldable pub framing_name : StdinFraming → Text
framing_name framing_lines = codes "lines"
framing_name framing_binary = codes "binary"
framing_name framing_unknown = codes "unknown"

abbrev pub default_stdin_pipe_buffer : ℕ
default_stdin_pipe_buffer = 128 * 1024

abbrev pub stdin_peek_limit : ℕ
stdin_peek_limit = 8 * 1024

pub record StdinPipe : Type 0 where
  pub rdr : Text
  pub pipe_buf_size : ℕ
  pub pipe_kind : StdinFraming
  pub probed : Bool
  pub probe_err : Option Error

-- WithStdinPipeBuffer, the one option.
unfoldable pub with_stdin_pipe_buffer : ℕ → StdinPipe → StdinPipe
with_stdin_pipe_buffer n p = if ltb stdin_peek_limit n then record p { pipe_buf_size = n } else p

unfoldable pub with_buffers : List ℕ → StdinPipe → StdinPipe
unfolding with_stdin_pipe_buffer
with_buffers [] p = p
with_buffers (n ∷ ns) p = with_buffers ns (with_stdin_pipe_buffer n p)

unfoldable pub new_stdin_pipe : Text → List ℕ → StdinPipe
unfolding with_buffers
new_stdin_pipe r opts = with_buffers opts (record {
  rdr = r;
  pipe_buf_size = default_stdin_pipe_buffer;
  pipe_kind = framing_unknown;
  probed = false;
  probe_err = none;
})

unfoldable pub is_stdin_text : ℕ → Bool
is_stdin_text b =
    (leb b'0' b && leb b b'9')
    || ((leb b'A' b && leb b b'Z')
        || ((leb b'a' b && leb b b'z')
            || ((b == b'+')
                || ((b == b'/')
                    || ((b == b'=') || ((b == b'_') || ((b == b'-') || (b == b'#'))))))))

unfoldable pub is_probe_space : ℕ → Bool
is_probe_space b = (b == b' ') || ((b == b'\t') || ((b == b'\r') || (b == b'\n')))

-- The loop of probe: the framing, the error and the bytes that are left.
unfoldable pub probe_bytes : ℕ → Text → StdinFraming × Option Error × Text
unfolding is_stdin_text is_probe_space
probe_bytes skipped [] = (framing_unknown, some (empty_input ∷ []), [])
probe_bytes skipped (b ∷ s) =
    let next = probe_bytes (skipped + 1) s in
    if is_probe_space b
    then (if leb stdin_peek_limit (skipped + 1)
        then (framing_unknown, some (empty_input ∷ []), b ∷ s)
        else next)
    else if is_stdin_text b
    then (framing_lines, none, b ∷ s)
    else (framing_binary, none, b ∷ s)

-- The first probe settles the kind and the error.
unfoldable pub probe : StdinPipe → StdinPipe
unfolding probe_bytes
probe p =
    let (kind, e, rest) = probe_bytes 0 p.rdr in
    if p.probed then p else record p { rdr = rest; pipe_kind = kind; probed = true; probe_err = e }

unfoldable pub is_empty_input : Error → Bool
is_empty_input [] = false
is_empty_input (empty_input ∷ e) = true
is_empty_input (_ ∷ e) = is_empty_input e

unfoldable pub framing_error : StdinFraming → Option Error → Option Error
unfolding is_empty_input
framing_error framing_unknown (some e) =
    if is_empty_input e then some (empty_input ∷ []) else some e
framing_error framing_unknown none = some (empty_input ∷ [])
framing_error _ e = none

-- Framing: the kind, the error, and the pipe behind the probe.
unfoldable pub framing_of : StdinPipe → StdinFraming × Option Error × StdinPipe
unfolding probe framing_error
framing_of p = let q = probe p in (q.pipe_kind, framing_error q.pipe_kind q.probe_err, q)

unfoldable pub is_space_byte : ℕ → Bool
is_space_byte b =
    (b == b' ') || ((b == b'\t') || ((b == b'\n') || ((b == b'\r') || ((b == 11) || (b == 12)))))

unfoldable pub skip_space : Text → Text
unfolding is_space_byte
skip_space [] = []
skip_space (b ∷ s) = let rest = skip_space s in if is_space_byte b then rest else b ∷ s

unfoldable pub read_trimmed : Text → Text
unfolding skip_space
read_trimmed s = reverse (skip_space (reverse (skip_space s)))

unfoldable pub read_payload : StdinPipe → Result Text
unfolding read_trimmed
read_payload p =
    let b = read_trimmed p.rdr in if length b == 0 then err (empty_input ∷ []) else ok b

module _ {V : Type 0} (decode : Text → Result V) (decode_as : Text → Text → Result V) {S : Type 0}
    (fn : S → MultiStreamRecord V → Result S) where
  unfoldable pub continue_with : (S → Result S) → Result S → Result S
  continue_with go_on (ok s) = go_on s
  continue_with go_on (err e) = err e
  continue_with go_on stuck = stuck

  -- The record of a chunk.
  unfoldable pub chunk_record : ℕ → V → MultiStreamRecord V
  chunk_record chunk v = record {
    record_index = chunk;
    line_number = 0;
    raw_line = [];
    record_value = some v;
    record_err = none;
  }

  unfoldable pub visit_value : (S → Result S) → S → ℕ → Result V → Result S
  unfolding continue_with chunk_record
  visit_value go_on s chunk (ok v) = continue_with go_on (fn s (chunk_record chunk v))
  visit_value go_on s chunk (err e) = err e
  visit_value go_on s chunk stuck = stuck

  unfoldable pub chunk_read :
      (StreamParser → S → Result S) → S → Result Text × StreamParser → Result S
  unfolding visit_value std_encode is_eof
  chunk_read go_on s (ok raw, p) =
      visit_value (go_on p) s (p.chunk_index - 1) (decode (std_encode raw))
  chunk_read go_on s (err e, p) = if is_eof e then ok s else err e
  chunk_read go_on s (stuck, p) = stuck

  -- The two loops of DecodeEach. A record takes a byte.
  unfoldable pub decode_chunks : ℕ → StreamParser → S → Result S
  unfolding chunk_read next
  decode_chunks zero p s = stuck
  decode_chunks (suc fuel) p s = chunk_read (decode_chunks fuel) s (next p)

  unfoldable pub visit_line :
      (MultiStreamDecoder → S → Result S)
      → S
      → Result (MultiStreamRecord V) × MultiStreamDecoder
      → Result S
  unfolding continue_with is_eof
  visit_line go_on s (ok rec, d) = continue_with (go_on d) (fn s rec)
  visit_line go_on s (err e, d) = if is_eof e then ok s else err e
  visit_line go_on s (stuck, d) = stuck

  unfoldable pub decode_lines : ℕ → MultiStreamDecoder → S → Result S
  unfolding visit_line next_record
  decode_lines zero d s = stuck
  decode_lines (suc fuel) d s = visit_line (decode_lines fuel) s (next_record decode decode_as d)

  unfoldable pub decode_framed : StdinFraming → Text → S → Result S
  unfolding decode_chunks decode_lines new_stream_parser new_multi_stream_decoder
  decode_framed framing_binary r s = decode_chunks (suc (length r)) (new_stream_parser r []) s
  decode_framed framing_lines r s = decode_lines (suc (length r)) (new_multi_stream_decoder r []) s
  decode_framed framing_unknown r s = ok s

  unfoldable pub when_framed : Option Error → Result S → Result S
  when_framed none out = out
  when_framed (some e) out = err e

  unfoldable pub decode_each : StdinPipe → S → Result S
  unfolding decode_framed framing_of when_framed
  decode_each p s = let (kind, e, q) = framing_of p in when_framed e (decode_framed kind q.rdr s)

module _ {V : Type 0} (decode : Text → Result V) (decode_as : Text → Text → Result V) where
  -- The callback of Decode: a record's value behind the others.
  unfoldable pub add_value : List V → MultiStreamRecord V → Result (List V)
  add_value vs rec = elim rec.record_value [ none ↦ ok vs | some v ↦ ok (vs ++ v ∷ []) ]

  unfoldable pub some_values : Result (List V) → Result (List V)
  some_values (ok []) = err (empty_input ∷ [])
  some_values (ok (v ∷ vs)) = ok (v ∷ vs)
  some_values (err e) = err e
  some_values stuck = stuck

  unfoldable pub decode_pipe : StdinPipe → Result (List V)
  unfolding some_values add_value decode_each
  decode_pipe p = some_values (decode_each decode decode_as add_value p [])
