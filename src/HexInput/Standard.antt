-- ===== src/HexInput/Standard.antt =====
-- Base64ToHex on a text of the standard encoding, and HexToBase64 back.
use stellar_xdr_lens.HexInput.Laws.{hex_to_bytes-is_hex_string, hex_to_bytes-bytes_to_hex}
use stellar_xdr_lens.Prelude.{
  ◌<◌, ◌≡◌, ◌≢◌, ◌∷◌, [], true, false, refl, ℕ, Text, arith, All, length, eq_false,
}
use stellar_xdr_lens.Encoding.Base64.{base64_digit, std_encode}
use stellar_xdr_lens.HexInput.{
  base64_to_hex, bytes_to_hex, contains_any, hex_to_base64, normalize_input, without_space,
  encoded_hex, is_dropped, then_bytes, is_hex_string,
}
use stellar_xdr_lens.Encoding.Big.{Bytes}
use stellar_xdr_lens.Encoding.Hex.{hex_encode}
use stellar_xdr_lens.Encoding.Base64.RoundTrip.{
  std_encode-All, std_decode-encode, std_encode-IsDigit, length-std_encode-pos,
}
use stellar_xdr_lens.Errors.{ok}
use stellar_xdr_lens.Encoding.Space.Digits.{trim_space-All}

abbrev IsStandard : ℕ → Type 0
IsStandard c = (32 < c) × ((c < 128) × ((c ≢ b'-') × (c ≢ b'_')))

digit-IsStandard : (n : ℕ) → n < 64 → IsStandard (base64_digit n)
unfolding base64_digit
digit-IsStandard n h = ground arith

contains_any-standard : (s : Text) → All IsStandard s → contains_any b'-' b'_' s ≡ false
unfolding contains_any
contains_any-standard [] h = refl
contains_any-standard (c ∷ s) (hc, h) = ground (arith, contains_any-standard s h)

without_space-standard : (s : Text) → All IsStandard s → without_space s ≡ s
unfolding without_space is_dropped
without_space-standard [] h = refl
without_space-standard (c ∷ s) (hc, h) = ground (arith, without_space-standard s h)

normalize_input-encode :
    (b : Text) → Bytes b → 0 < length b → normalize_input (std_encode b) ≡ std_encode b
unfolding normalize_input
normalize_input-encode b h pos =
    let standard : All IsStandard (std_encode b) =
      std_encode-All IsStandard digit-IsStandard
        (omega arith, (omega arith, (omega arith, omega arith))) b h in
    rw
      (
        trim_space-All (std_encode b) (length-std_encode-pos b pos) (std_encode-IsDigit b h),
        without_space-standard (std_encode b) standard,
        contains_any-standard (std_encode b) standard,
      )
      refl

pub base64_to_hex-encode :
    (b : Text) → Bytes b → 0 < length b → base64_to_hex (std_encode b) ≡ ok (hex_encode b)
unfolding base64_to_hex encoded_hex
base64_to_hex-encode b h pos =
    rw
      (
        normalize_input-encode b h pos,
        eq_false (length (std_encode b)) 0 (omega (arith, length-std_encode-pos b pos)),
        std_decode-encode b h,
      )
      refl

pub hex_to_base64-hex_encode :
    (b : Text) → Bytes b → 0 < length b → hex_to_base64 (hex_encode b) ≡ ok (std_encode b)
unfolding hex_to_base64 then_bytes bytes_to_hex
hex_to_base64-hex_encode b h pos = rw (hex_to_bytes-bytes_to_hex b pos h) refl

pub is_hex_string-hex_encode :
    (b : Text) → Bytes b → 0 < length b → is_hex_string (hex_encode b) ≡ true
unfolding bytes_to_hex
is_hex_string-hex_encode b h pos =
    (hex_to_bytes-is_hex_string (hex_encode b)).1 (b, hex_to_bytes-bytes_to_hex b pos h)
