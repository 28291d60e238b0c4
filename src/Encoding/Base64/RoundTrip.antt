-- ===== src/Encoding/Base64/RoundTrip.antt =====
-- The standard encoding is read back by the standard decoder.

use stellar_xdr_lens.Prelude.{
  ℕ, ◌+◌, ◌*◌, ◌/◌, ◌%◌, ◌<◌, ◌≡◌, ◌≢◌, refl, false, [], ◌∷◌, some, arith, Text, ◌==◌, All, length,
}
use stellar_xdr_lens.Encoding.Big.{Bytes}
use stellar_xdr_lens.Encoding.Base64.{
  base64_value, base64_digit, skip_newlines, four, padded_groups, std_decode, std_encode,
}

value-digit : (n : ℕ) → n < 64 → base64_value (base64_digit n) ≡ some n
unfolding base64_value base64_digit
value-digit n h = ground arith

-- What an encoded text consists of.
abbrev pub IsDigit : ℕ → Type 0
IsDigit c = (32 < c) × (c < 128)

IsDigit-IsDigit : (n : ℕ) → n < 64 → IsDigit (base64_digit n)
unfolding base64_digit
IsDigit-IsDigit n h = ground arith

digit-ne-pad : (n : ℕ) → n < 64 → base64_digit n ≢ b'='
unfolding base64_digit
digit-ne-pad n h = ground arith

skip_newlines-digits : (s : Text) → All IsDigit s → skip_newlines s ≡ s
unfolding skip_newlines
skip_newlines-digits [] h = refl
skip_newlines-digits (c ∷ s) (hc, hs) = ground (arith, skip_newlines-digits s hs)

-- What holds of the digits and of the padding holds of an encoded text.
module _ (P : ℕ → Type 0) (digits : (n : ℕ) → n < 64 → P (base64_digit n)) (pad : P b'=') where
  pub std_encode-All : (s : Text) → Bytes s → All P (std_encode s)
  unfolding std_encode
  std_encode-All [] h = tt
  std_encode-All (x ∷ []) (hx, _) =
      (digits (x / 4) (omega arith), (digits (x % 4 * 16) (omega arith), (pad, (pad, tt))))
  std_encode-All (x ∷ y ∷ []) (hx, (hy, _)) = (
    digits (x / 4) (omega arith),
    (digits (x % 4 * 16 + y / 16) (omega arith), (digits (y % 16 * 4) (omega arith), (pad, tt))),
  )
  std_encode-All (x ∷ y ∷ z ∷ s) (hx, (hy, (hz, hs))) = (
    digits (x / 4) (omega arith),
    (
      digits (x % 4 * 16 + y / 16) (omega arith),
      (
        digits (y % 16 * 4 + z / 64) (omega arith),
        (digits (z % 64) (omega arith), std_encode-All s hs),
      ),
    ),
  )

pub std_encode-IsDigit : (s : Text) → Bytes s → All IsDigit (std_encode s)
std_encode-IsDigit s h = std_encode-All IsDigit IsDigit-IsDigit (omega arith, omega arith) s h

pub length-std_encode-pos : (s : Text) → 0 < length s → 0 < length (std_encode s)
unfolding std_encode
length-std_encode-pos [] pos = absurd (omega arith)
length-std_encode-pos (x ∷ []) pos = omega arith
length-std_encode-pos (x ∷ y ∷ []) pos = omega arith
length-std_encode-pos (x ∷ y ∷ z ∷ s) pos = omega arith

-- A group whose last byte is no padding is read before the rest.
groups_step :
    (a b c d : ℕ) (s : Text)
    → d ≢ b'='
    → padded_groups (a ∷ b ∷ c ∷ d ∷ s)
      ≡ four (base64_value a) (base64_value b) (base64_value c) (base64_value d) (padded_groups s)
unfolding padded_groups
groups_step a b c d [] h = ground arith
groups_step a b c d (e ∷ s) h = refl

full_group :
    (x y z : ℕ) (s : Text)
    → x < 256
    → y < 256
    → z < 256
    → padded_groups (std_encode s) ≡ some s
    → padded_groups (std_encode (x ∷ y ∷ z ∷ s)) ≡ some (x ∷ y ∷ z ∷ s)
full_group x y z s hx hy hz rest =
    unfold std_encode in
    rw (groups_step _ _ _ _ (std_encode s) (digit-ne-pad (z % 64) (omega arith))) (
      rw
        (
          value-digit (x / 4) (omega arith),
          value-digit (x % 4 * 16 + y / 16) (omega arith),
          value-digit (y % 16 * 4 + z / 64) (omega arith),
          value-digit (z % 64) (omega arith),
          rest,
        )
        (unfold four in ground arith))

one_left : (x : ℕ) → x < 256 → padded_groups (std_encode (x ∷ [])) ≡ some (x ∷ [])
unfolding padded_groups std_encode
one_left x hx =
    rw (value-digit (x / 4) (omega arith), value-digit (x % 4 * 16) (omega arith)) (ground arith)

two_left :
    (x y : ℕ) → x < 256 → y < 256 → padded_groups (std_encode (x ∷ y ∷ [])) ≡ some (x ∷ y ∷ [])
unfolding padded_groups std_encode
two_left x y hx hy =
    let no_pad : (base64_digit (y % 16 * 4) == b'=') ≡ false =
      ground (arith, digit-ne-pad (y % 16 * 4) (omega arith)) in
    rw
      (
        value-digit (x / 4) (omega arith),
        value-digit (x % 4 * 16 + y / 16) (omega arith),
        value-digit (y % 16 * 4) (omega arith),
        no_pad,
      )
      (ground arith)

padded_groups-encode : (s : Text) → Bytes s → padded_groups (std_encode s) ≡ some s
padded_groups-encode [] h = unfold padded_groups std_encode in refl
padded_groups-encode (x ∷ []) (hx, _) = one_left x hx
padded_groups-encode (x ∷ y ∷ []) (hx, (hy, _)) = two_left x y hx hy
padded_groups-encode (x ∷ y ∷ z ∷ s) (hx, (hy, (hz, hs))) =
    full_group x y z s hx hy hz (padded_groups-encode s hs)

-- Decoding the standard encoding of any bytes gives the bytes back.
pub std_decode-encode : (s : Text) → Bytes s → std_decode (std_encode s) ≡ some s
unfolding std_decode
std_decode-encode s h =
    rw (skip_newlines-digits (std_encode s) (std_encode-IsDigit s h)) (padded_groups-encode s h)
