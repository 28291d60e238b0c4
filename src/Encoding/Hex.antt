-- ===== src/Encoding/Hex.antt =====
-- encoding/hex: DecodeString reads both cases, EncodeToString writes lower case.
use stellar_xdr_lens.Prelude.{
  ℕ, ◌+◌, ◌-◌, ◌*◌, ◌/◌, ◌%◌, ◌<◌, ◌≡◌, refl, ◌&&◌, [], ◌∷◌, Option, none, some, arith, Text, codes,
  leb, ltb, if◌then◌else◌,
}
use stellar_xdr_lens.Encoding.Big.{Bytes}

-- The value of a hexadecimal digit.
unfoldable pub hex_value : ℕ → Option ℕ
hex_value c =
    if leb b'0' c && leb c b'9'
    then some (c - b'0')
    else if leb b'a' c && leb c b'f'
    then some (c - b'a' + 10)
    else if leb b'A' c && leb c b'F'
    then some (c - b'A' + 10)
    else none

unfoldable pub hex_pair : Option ℕ → Option ℕ → Option Text → Option Text
hex_pair (some hi) (some lo) (some rest) = some ((hi * 16 + lo) ∷ rest)
hex_pair (some hi) (some lo) none = none
hex_pair (some hi) none rest = none
hex_pair none lo rest = none

-- hex.DecodeString; `none` is an error.
unfoldable pub hex_decode : Text → Option Text
unfolding hex_value hex_pair
hex_decode [] = some []
hex_decode (hi ∷ []) = none
hex_decode (hi ∷ lo ∷ rest) = hex_pair (hex_value hi) (hex_value lo) (hex_decode rest)

unfoldable pub hex_digit : ℕ → ℕ
hex_digit n = if ltb n 10 then b'0' + n else b'a' + (n - 10)

-- hex.EncodeToString.
unfoldable pub hex_encode : Text → Text
unfolding hex_digit
hex_encode [] = []
hex_encode (b ∷ bs) = hex_digit (b / 16) ∷ hex_digit (b % 16) ∷ hex_encode bs

hex_value-digit : (n : ℕ) → n < 16 → hex_value (hex_digit n) ≡ some n
unfolding hex_value hex_digit
hex_value-digit n h = ground arith

pub hex_decode-encode : (s : Text) → Bytes s → hex_decode (hex_encode s) ≡ some s
unfolding hex_decode hex_encode
hex_decode-encode [] h = refl
hex_decode-encode (b ∷ bs) (hb, hbs) = ground (
  arith,
  hex_value-digit (b / 16) (omega arith),
  hex_value-digit (b % 16) (omega arith),
  hex_decode-encode bs hbs,
)

mixed_case : hex_decode (codes "0aFf") ≡ some (10 ∷ 255 ∷ [])
unfolding hex_decode
mixed_case = refl
