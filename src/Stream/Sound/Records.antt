-- ===== src/Stream/Sound/Records.antt =====
-- The three readers: what they keep of the parser.
use stellar_xdr_lens.Prelude.{
  ◌≤◌, ◌<◌, ◌≡◌, ◌∷◌, if◌then◌else◌, suc, [], none, some, refl, Text, Option, length, arith,
  Bool-cases, ltb, inl, inr, le_of_not_ltb,
}
use stellar_xdr_lens.Stream.Next.{read_record}
use stellar_xdr_lens.Stream.Read.{
  length_body, length_header, read_base64_line, read_length_prefixed, read_record_marking,
}
use stellar_xdr_lens.Stream.Parser.{
  StreamFraming, StreamParser, read_full, framing_record_marking, framing_length_prefixed,
  framing_base64_lines, framing_auto,
}
use stellar_xdr_lens.Stream.Sound.{
  IsSound, error-IsSound, read_full-Reached, Reached, Reached-refl, read_full_whole, record-IsSound,
  Reached-trans,
}
use stellar_xdr_lens.Stream.Sound.Fragments.{fragments-IsSound}
use stellar_xdr_lens.Stream.Sound.Lines.{base64_lines-IsSound}
use stellar_xdr_lens.Errors.{
  Sentinel, invalid_framing, is_eof_sentinel, premature_eof, eof, record_too_large,
}
use stellar_xdr_lens.Encoding.Big.{uint32_be}

body-IsSound :
    (p : StreamParser) (r : Text × Option Sentinel × StreamParser)
    → Reached p r.2
    → length r.2.input < length p.input
    → (r.1 ≡ none → length r.0 ≤ p.max_record_size)
    → IsSound p (length_body r)
unfolding length_body
body-IsSound p (bytes, some s, q) reached less fits = error-IsSound (premature_eof ∷ s ∷ []) reached
body-IsSound p (bytes, none, q) reached less fits =
    record-IsSound bytes reached less (λ w. fits refl)

header-IsSound :
    (p : StreamParser) (r : Text × Option Sentinel × StreamParser)
    → Reached p r.2
    → (r.1 ≡ none → length r.2.input < length p.input)
    → IsSound p (length_header r)
unfolding length_header
header-IsSound p (buf, some s, q) reached less =
    error-IsSound (if is_eof_sentinel s then eof ∷ [] else premature_eof ∷ s ∷ []) reached
header-IsSound p (buf, none, q) reached less =
    let n = uint32_be buf in
    elim (Bool-cases (ltb q.max_record_size n)) [
      | inl big ↦ rw big (error-IsSound (record_too_large ∷ []) reached)
      | inr fits ↦ rw fits (
          body-IsSound p (read_full n q) (Reached-trans reached (read_full-Reached q n))
            (omega (arith, less refl, (read_full-Reached q n).shrinks))
            (λ whole. omega (
              arith,
              (read_full_whole q n whole).0,
              le_of_not_ltb q.max_record_size n fits,
              reached.limit,
            )))
    ]

read_length_prefixed-IsSound : (p : StreamParser) → IsSound p (read_length_prefixed p)
unfolding read_length_prefixed
read_length_prefixed-IsSound p =
    header-IsSound p (read_full 4 p) (read_full-Reached p 4)
      (λ whole. omega (arith, read_full_whole p 4 whole))

read_record_marking-IsSound : (p : StreamParser) → IsSound p (read_record_marking p)
unfolding read_record_marking
read_record_marking-IsSound p =
    fragments-IsSound (suc (length p.input)) [] 0 p (omega arith) (λ w. (refl, omega arith))

read_base64_line-IsSound : (p : StreamParser) → IsSound p (read_base64_line p)
unfolding read_base64_line
read_base64_line-IsSound p = base64_lines-IsSound (suc (length p.input)) p (omega arith)

-- In every framing.
pub read_record-IsSound : (f : StreamFraming) (p : StreamParser) → IsSound p (read_record f p)
unfolding read_record
read_record-IsSound framing_record_marking p = read_record_marking-IsSound p
read_record-IsSound framing_length_prefixed p = read_length_prefixed-IsSound p
read_record-IsSound framing_base64_lines p = read_base64_line-IsSound p
read_record-IsSound framing_auto p = error-IsSound (invalid_framing ∷ []) (Reached-refl p)
