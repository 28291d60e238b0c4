-- ===== src/Stream/ReadFull.antt =====
-- What a full read does to the parser.
use stellar_xdr_lens.Prelude.{
  ℕ, ◌+◌, ◌≤◌, ◌≡◌, ap, none, ◌++◌, Text, length, take-append, drop-append, length-append,
  length-take, length-drop, arith, [], some, ◌<◌, zero, suc, leb-false,
}
use stellar_xdr_lens.Stream.Parser.{StreamParser, read_full, read_full_error}
use stellar_xdr_lens.Errors.{eof}
use native.Mathlib.Nat.{add-zero}

-- The parser behind `n` bytes, with `rest` still to read.
abbrev pub advance : StreamParser → Text → ℕ → StreamParser
advance p rest n = record p { input = rest; total_bytes = p.total_bytes + n }

pub read_full_error-le : (n : ℕ) (s : Text) → n ≤ length s → read_full_error n s ≡ none
unfolding read_full_error
read_full_error-le n s h = ground arith

-- A read of bytes that are there returns them and no error.
pub read_full-prefix :
    (p : StreamParser) (n : ℕ) (xs rest : Text)
    → p.input ≡ xs ++ rest
    → length xs ≡ n
    → read_full n p ≡ (xs, none, advance p rest n)
unfolding read_full
read_full-prefix p n xs rest e h =
    let room : n ≤ length p.input = omega (arith, ap length e, length-append {0} xs rest) in
    rw (read_full_error-le n p.input room)
      (rw (e, take-append n xs rest h, drop-append n xs rest h, h))

-- Whatever a read returns, the bytes that it took and those that are left make up the input.
pub read_full_accounts :
    (p : StreamParser) (n : ℕ)
    → (read_full n p).2.total_bytes + length (read_full n p).2.input
      ≡ p.total_bytes + length p.input
unfolding read_full
read_full_accounts p n = omega (arith, length-take {0} n p.input, length-drop {0} n p.input)

-- At the end of the input a read of a byte or more is an end of file.
pub read_full_nothing :
    (p : StreamParser) (n : ℕ)
    → p.input ≡ []
    → 0 < n
    → read_full n p ≡ ([], some eof, record p { input = [] })
unfolding read_full read_full_error
read_full_nothing p zero e pos = absurd (omega arith)
read_full_nothing p (suc n) e pos = rw (e, leb-false (suc n) 0 pos, add-zero)
