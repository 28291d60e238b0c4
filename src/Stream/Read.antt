-- ===== src/Stream/Read.antt =====
-- One record in each of the three framings. A reader returns its result and the parser behind it.
use stellar_xdr_lens.Prelude.{
  ℕ, zero, suc, ◌+◌, ◌%◌, ◌^◌, Bool, true, false, ◌&&◌, none, some, [], ◌∷◌, ◌++◌, Text, length,
  ltb, leb, ◌==◌, if◌then◌else◌, take, drop, Option,
}
use stellar_xdr_lens.Encoding.Big.{uint32_be}
use stellar_xdr_lens.Encoding.Base64.{std_decode}
use stellar_xdr_lens.Encoding.Space.{trim_space}
use stellar_xdr_lens.Errors.{
  Sentinel, eof, record_too_large, premature_eof, invalid_framing, corrupt_input, Error,
  is_eof_sentinel, Result, ok, err, stuck,
}
use stellar_xdr_lens.Stream.Parser.{StreamParser, read_full}

-- A failed header: the clean end only where nothing of a record has been kept.
unfoldable pub header_error : Sentinel → Text → Error
unfolding is_eof_sentinel
header_error e kept =
    if is_eof_sentinel e && (length kept == 0) then eof ∷ [] else premature_eof ∷ e ∷ []

-- A fragment's data has been read: the record ends, or the loop goes on with a longer buffer.
unfoldable pub fragment_data :
    Bool
    → Text
    → (Text → StreamParser → Result Text × StreamParser)
    → Text × Option Sentinel × StreamParser
    → Result Text × StreamParser
fragment_data is_last kept more (frag_buf, some s, p) = (err (premature_eof ∷ s ∷ []), p)
fragment_data is_last kept more (frag_buf, none, p) =
    let rest = more (kept ++ frag_buf) p in if is_last then (ok (kept ++ frag_buf), p) else rest

-- A fragment's header has been read. `total` is the uint32 totalSize.
unfoldable pub fragment_header :
    Text
    → ℕ
    → (Text → ℕ → StreamParser → Result Text × StreamParser)
    → Text × Option Sentinel × StreamParser
    → Result Text × StreamParser
unfolding header_error
fragment_header kept total more (header_buf, some s, p) = (err (header_error s kept), p)
fragment_header kept total more (header_buf, none, p) =
    let header = uint32_be header_buf in
    let is_last = leb (2 ^ 31) header in
    let frag_len = header % 2 ^ 31 in
    let total' = (total + frag_len) % 2 ^ 32 in
    if (frag_len == 0) && is_last
    then (ok kept, p)
    else if ltb p.max_record_size total'
    then (err (record_too_large ∷ []), p)
    else fragment_data is_last kept (λ buffer q. more buffer total' q) (read_full frag_len p)

-- The loop of readRecordMarking: `kept` is the buffer. Every round reads four bytes or stops, so the
-- length of the input is fuel enough.
unfoldable pub fragments : ℕ → Text → ℕ → StreamParser → Result Text × StreamParser
fragments zero kept total p = (stuck, p)
fragments (suc fuel) kept total p = fragment_header kept total (fragments fuel) (read_full 4 p)

unfoldable pub read_record_marking : StreamParser → Result Text × StreamParser
read_record_marking p = fragments (suc (length p.input)) [] 0 p

unfoldable pub length_body : Text × Option Sentinel × StreamParser → Result Text × StreamParser
length_body (bytes, some s, p) = (err (premature_eof ∷ s ∷ []), p)
length_body (bytes, none, p) = (ok bytes, p)

unfoldable pub length_header : Text × Option Sentinel × StreamParser → Result Text × StreamParser
unfolding is_eof_sentinel
length_header (header_buf, some s, p) =
    (err (if is_eof_sentinel s then eof ∷ [] else premature_eof ∷ s ∷ []), p)
length_header (header_buf, none, p) =
    let n = uint32_be header_buf in
    if ltb p.max_record_size n
    then (err (record_too_large ∷ []), p)
    else length_body (read_full n p)

unfoldable pub read_length_prefixed : StreamParser → Result Text × StreamParser
read_length_prefixed p = length_header (read_full 4 p)

-- ReadString('\n'): how many bytes the next line has, its newline included, and whether it has one.
unfoldable pub line_length : Text → ℕ
line_length [] = 0
line_length (c ∷ s) = let rest = line_length s in if c == b'\n' then 1 else suc rest

unfoldable pub has_newline : Text → Bool
has_newline [] = false
has_newline (c ∷ s) = let rest = has_newline s in if c == b'\n' then true else rest

unfoldable pub read_string : StreamParser → Text × Bool × StreamParser
unfolding line_length has_newline
read_string p =
    let n = line_length p.input in
    (
      take n p.input,
      has_newline p.input,
      record p { input = drop n p.input; total_bytes = p.total_bytes + n },
    )

-- A line that is not blank ends the search, whether or not the input ended with it.
unfoldable pub decode_line : ℕ → Text → Result Text
decode_line max line = elim (std_decode line) [
  | none ↦ err (invalid_framing ∷ corrupt_input ∷ [])
  | some bytes ↦ if ltb max (length bytes % 2 ^ 32) then err (record_too_large ∷ []) else ok bytes
]

-- A line has been read and trimmed.
unfoldable pub line_done :
    (StreamParser → Result Text × StreamParser)
    → Text × Bool × StreamParser
    → Result Text × StreamParser
line_done more (raw, ended, p) =
    let line = trim_space raw in
    let rest = more p in
    if length line == 0
    then (if ended then rest else (err (eof ∷ []), p))
    else (decode_line p.max_record_size line, p)

-- The loop of readBase64Line: each round reads a newline or stops.
unfoldable pub base64_lines : ℕ → StreamParser → Result Text × StreamParser
base64_lines zero p = (stuck, p)
base64_lines (suc fuel) p = line_done (base64_lines fuel) (read_string p)

unfoldable pub read_base64_line : StreamParser → Result Text × StreamParser
read_base64_line p = base64_lines (suc (length p.input)) p
