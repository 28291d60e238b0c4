-- ===== src/Encoding/Big.antt =====
-- encoding/binary's BigEndian for uint32.
use stellar_xdr_lens.Prelude.{
  ℕ, ◌+◌, ◌*◌, ◌/◌, ◌%◌, ◌^◌, ◌<◌, ◌≡◌, [], ◌∷◌, arith, Text, length, All,
}

abbrev pub IsByte : ℕ → Type 0
IsByte b = b < 256

abbrev pub Bytes : Text → Type 0
Bytes = All IsByte

-- binary.BigEndian.Uint32 on a buffer of four bytes.
unfoldable pub uint32_be : Text → ℕ
uint32_be (a ∷ b ∷ c ∷ d ∷ rest) = a * 2 ^ 24 + b * 2 ^ 16 + c * 2 ^ 8 + d
uint32_be _ = 0

-- binary.BigEndian.PutUint32.
unfoldable pub put_uint32_be : ℕ → Text
put_uint32_be v = v / 2 ^ 24 % 256 ∷ v / 2 ^ 16 % 256 ∷ v / 2 ^ 8 % 256 ∷ v % 256 ∷ []

pub uint32_be-put : (v : ℕ) → v < 2 ^ 32 → uint32_be (put_uint32_be v) ≡ v
unfolding uint32_be put_uint32_be
uint32_be-put v h = omega arith

pub length-put_uint32_be : (v : ℕ) → length (put_uint32_be v) ≡ 4
unfolding put_uint32_be
length-put_uint32_be v = omega arith

pub uint32_be-lt : (s : Text) → Bytes s → uint32_be s < 2 ^ 32
unfolding uint32_be
uint32_be-lt (a ∷ b ∷ c ∷ d ∷ rest) (ha, (hb, (hc, (hd, _)))) = omega arith
uint32_be-lt (a ∷ b ∷ c ∷ []) h = omega arith
uint32_be-lt (a ∷ b ∷ []) h = omega arith
uint32_be-lt (a ∷ []) h = omega arith
uint32_be-lt [] h = omega arith
