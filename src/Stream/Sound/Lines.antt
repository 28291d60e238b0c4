-- ===== src/Stream/Sound/Lines.antt =====
-- readBase64Line: what its rounds keep of the parser.
use stellar_xdr_lens.Prelude.{
  ◌+◌, ◌^◌, ◌≤◌, ◌<◌, ◌≡◌, ◌≢◌, ◌∷◌, ◌==◌, zero, suc, [], true, refl, Text, ℕ, arith, length, Bool,
  length-drop, length-take, Bool-cases, inl, inr,
}
use stellar_xdr_lens.Stream.Read.{
  base64_lines, decode_line, line_done, line_length, read_string, has_newline,
}
use stellar_xdr_lens.Stream.Parser.{StreamParser}
use stellar_xdr_lens.Errors.{Result, ok, stuck, eof}
use stellar_xdr_lens.Stream.Sound.{Reached, IsSound, IsSound-after, error-IsSound}
use stellar_xdr_lens.Encoding.Base64.Length.{length-std_decode}
use stellar_xdr_lens.Encoding.Space.{trim_space}
use stellar_xdr_lens.Encoding.Space.Laws.{length-trim_space}

line_length-le : (s : Text) → line_length s ≤ length s
unfolding line_length
line_length-le [] = omega arith
line_length-le (c ∷ s) = ground (arith, line_length-le s)

-- A line that ends in a newline has a byte at least.
line_length-pos : (s : Text) → has_newline s ≡ true → 0 < line_length s
unfolding line_length has_newline
line_length-pos [] h = cc
line_length-pos (c ∷ s) h = ground arith

read_string-Reached : (p : StreamParser) → Reached p (read_string p).2
unfolding read_string
read_string-Reached p =
    let n = line_length p.input in
    record {
      balance = omega (arith, line_length-le p.input, length-drop {0} n p.input);
      shrinks = omega (arith, length-drop {0} n p.input);
      limit = refl;
      framing = refl;
      detected = refl;
      chunks = refl;
      closed = refl;
    }

read_string_ended :
    (p : StreamParser) → (read_string p).1 ≡ true → length (read_string p).2.input < length p.input
unfolding read_string
read_string_ended p h =
    let n = line_length p.input in
    omega (arith, line_length-le p.input, line_length-pos p.input h, length-drop {0} n p.input)

-- The bytes of a line are those that the read took.
read_string_taken :
    (p : StreamParser) → length (read_string p).0 + length (read_string p).2.input ≡ length p.input
unfolding read_string
read_string_taken p =
    let n = line_length p.input in
    omega (arith, line_length-le p.input, length-take {0} n p.input, length-drop {0} n p.input)

decode_line-settled : (max : ℕ) (line : Text) → decode_line max line ≢ stuck
unfolding decode_line
decode_line-settled max line h = ground arith

decode_line-bounded :
    (max : ℕ) (line t : Text) → decode_line max line ≡ ok t → length line < 2 ^ 32 → length t ≤ max
unfolding decode_line
decode_line-bounded max line t h small = ground (arith, length-std_decode line t)

line-IsSound :
    (p : StreamParser) (more : StreamParser → Result Text × StreamParser)
    (r : Text × Bool × StreamParser)
    → Reached p r.2
    → (r.1 ≡ true → length r.2.input < length p.input)
    → length r.0 + length r.2.input ≡ length p.input
    → ((q : StreamParser) → Reached p q → length q.input < length p.input → IsSound p (more q))
    → IsSound p (line_done more r)
unfolding line_done
line-IsSound p more (raw, ended, q) reached less taken rest =
    let line = trim_space raw in
    elim (Bool-cases (length line == 0)) [
      | inl blank ↦ elim (Bool-cases ended) [
        | inl yes_ended ↦ rw (blank, yes_ended) (rest q reached (less yes_ended))
        | inr at_end ↦ rw (blank, at_end) (error-IsSound (eof ∷ []) reached)
      ]
      | inr filled ↦
          let size = length-trim_space raw in
          rw filled (record {
            reached = reached;
            settled = decode_line-settled q.max_record_size line;
            progress = λ t h. ground arith;
            bounded = λ w t h. omega (
              arith,
              decode_line-bounded q.max_record_size line t h (omega arith),
              reached.limit,
            );
          })
    ]

pub base64_lines-IsSound :
    (fuel : ℕ) (p : StreamParser) → length p.input < fuel → IsSound p (base64_lines fuel p)
unfolding base64_lines
base64_lines-IsSound zero p enough = absurd (omega arith)
base64_lines-IsSound (suc fuel) p enough =
    line-IsSound p (base64_lines fuel) (read_string p) (read_string-Reached p) (read_string_ended p)
      (read_string_taken p)
      λ q reached less. IsSound-after reached (base64_lines-IsSound fuel q (omega arith))
