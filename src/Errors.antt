-- ===== src/Errors.antt =====
-- Errors as the chain of sentinels that `errors.Is` finds in them; the message texts are left out.
use stellar_xdr_lens.Prelude.{Bool, true, false, ◌||◌, List, [], ◌∷◌, ◌≡◌, ap}

-- io.EOF, io.ErrUnexpectedEOF, the sentinels of stream_parser.go and base64's error, those of
-- multi_stream.go with bufio's, those of decode.go, hex_input.go and canonical.go, and those of wasm_disasm.go
-- with the overflow of its LEB128 numbers.
pub data Sentinel : Type 0 where
  eof unexpected_eof : Sentinel
  record_too_large premature_eof invalid_framing stream_closed : Sentinel
  corrupt_input : Sentinel
  empty_multi_stream corrupt_multi_stream_record token_too_long : Sentinel
  invalid_hex odd_length_hex empty_hex : Sentinel
  empty_input : Sentinel
  non_canonical misaligned_xdr non_canonical_padding trailing_garbage : Sentinel
  invalid_wasm_magic unsupported_wasm_version malformed_wasm leb_overflow : Sentinel

-- The sentinels that an error wraps, itself included (`%w` adds one).
abbrev pub Error : Type 0
Error = List Sentinel

unfoldable pub is_eof_sentinel : Sentinel → Bool
is_eof_sentinel eof = true
is_eof_sentinel _ = false

-- errors.Is(err, io.EOF)
unfoldable pub is_eof : Error → Bool
unfolding is_eof_sentinel
is_eof [] = false
is_eof (s ∷ e) = is_eof_sentinel s || is_eof e

-- `stuck` is no value of the program: a loop ran out of the fuel that the model gives it.
pub data Result {ℓ} (A : Type ℓ) : Type ℓ where
  ok : A → Result A
  err : Error → Result A
  stuck : Result A

-- A result that is one of the program's.
pub data Ends {ℓ} {A : Type ℓ} : Result A → Type ℓ where
  ends_ok : (a : A) → Ends (ok a)
  ends_err : (e : Error) → Ends (err e)

abbrev payload {ℓ} : {A : Type ℓ} → A → Result A → A
payload d (ok a) = a
payload d _ = d

pub ok-injective {ℓ} : {A : Type ℓ} (a b : A) → ok a ≡ ok b → a ≡ b
ok-injective a b h = ap (payload a) h
