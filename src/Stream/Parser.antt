-- ===== src/Stream/Parser.antt =====
-- The parser's state, its options, and reads from the buffered input. The io.Reader is the list of
-- the bytes that it has still to give; it fails only at its end.
use stellar_xdr_lens.Prelude.{
  ℕ, ◌*◌, Bool, true, false, ◌&&◌, ◌||◌, Option, none, some, List, [], ◌∷◌, Text, length, take,
  drop, ◌+◌, ◌^◌, ltb, leb, ◌==◌, if◌then◌else◌,
}
use stellar_xdr_lens.Encoding.Big.{uint32_be}
use stellar_xdr_lens.Errors.{Sentinel, eof, unexpected_eof, premature_eof, Result, ok, err}

pub data StreamFraming : Type 0 where
  framing_auto framing_record_marking framing_length_prefixed framing_base64_lines : StreamFraming

pub record StreamParser : Type 0 where
  pub input : Text
  pub framing : StreamFraming
  pub detected : StreamFraming
  pub max_record_size : ℕ
  pub buf_size : ℕ
  pub chunk_index : ℕ
  pub total_bytes : ℕ
  pub closed : Bool

abbrev pub default_max_record_size : ℕ
default_max_record_size = 64 * 1024 * 1024

abbrev pub default_buffer_size : ℕ
default_buffer_size = 64 * 1024

pub data StreamOption : Type 0 where
  with_framing : StreamFraming → StreamOption
  with_max_record_size : ℕ → StreamOption
  with_buffer_size : ℕ → StreamOption

unfoldable pub apply_option : StreamOption → StreamParser → StreamParser
apply_option (with_framing f) p = record p { framing = f }
apply_option (with_max_record_size n) p = if ltb 0 n then record p { max_record_size = n } else p
apply_option (with_buffer_size n) p = if ltb 0 n then record p { buf_size = n } else p

unfoldable pub apply_options : List StreamOption → StreamParser → StreamParser
unfolding apply_option
apply_options [] p = p
apply_options (o ∷ os) p = apply_options os (apply_option o p)

-- NewStreamParser.
unfoldable pub new_stream_parser : Text → List StreamOption → StreamParser
unfolding apply_options
new_stream_parser r opts = apply_options opts (record {
  input = r;
  framing = framing_auto;
  detected = framing_auto;
  max_record_size = default_max_record_size;
  buf_size = default_buffer_size;
  chunk_index = 0;
  total_bytes = 0;
  closed = false;
})

unfoldable pub is_auto : StreamFraming → Bool
is_auto framing_auto = true
is_auto _ = false

-- StreamParser.Framing; also the choice that Next makes.
unfoldable pub effective_framing : StreamParser → StreamFraming
unfolding is_auto
effective_framing p = if is_auto p.framing then p.detected else p.framing

-- The error of io.ReadFull for a buffer of `n` bytes: none if the input has them, io.EOF if it has
-- no byte at all, io.ErrUnexpectedEOF if it ends within.
unfoldable pub read_full_error : ℕ → Text → Option Sentinel
read_full_error n input =
    if leb n (length input)
    then none
    else if length input == 0
    then some eof
    else some unexpected_eof

-- io.ReadFull(p.reader, buf) and `p.totalBytes += int64(n)`: the bytes read, the error, the parser.
unfoldable pub read_full : ℕ → StreamParser → Text × Option Sentinel × StreamParser
unfolding read_full_error
read_full n p = (
  take n p.input,
  read_full_error n p.input,
  record p { input = drop n p.input; total_bytes = p.total_bytes + length (take n p.input) },
)

unfoldable pub is_base64_byte : ℕ → Bool
is_base64_byte b =
    (leb b'0' b && leb b b'9')
    || (leb b'a' b && leb b b'z')
    || (leb b'A' b && leb b b'Z')
    || (b == b'+')
    || (b == b'/')
    || (b == b'=')
    || (b == b'\n')
    || (b == b'\r')

unfoldable pub all_base64 : Text → Bool
unfolding is_base64_byte
all_base64 [] = true
all_base64 (b ∷ bs) = is_base64_byte b && all_base64 bs

-- The framing that four first bytes announce.
unfoldable pub classify : Text → StreamFraming
unfolding all_base64
classify peek =
    if all_base64 peek
    then framing_base64_lines
    else if leb (2 ^ 31) (uint32_be peek)
    then framing_record_marking
    else framing_length_prefixed

-- Peek(4) fails with io.EOF when fewer than four bytes are left.
unfoldable pub detect_framing : StreamParser → Result StreamFraming
unfolding classify
detect_framing p =
    if leb 4 (length p.input)
    then ok (classify (take 4 p.input))
    else if length p.input == 0
    then err (eof ∷ [])
    else err (premature_eof ∷ eof ∷ [])
