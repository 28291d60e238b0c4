-- ===== src/HexInput/Laws.antt =====
-- HexToBytes against IsHexString and BytesToHex.
use stellar_xdr_lens.Prelude.{
  ◌%◌, ◌<◌, ◌≡◌, ◌↔◌, ◌∷◌, [], true, some, refl, Text, length, arith, ℕ, ◌+◌, ◌*◌, ◌/◌, ◌⊎◌, ◌==◌,
  false, none, All, Option-cases, inl, Bool-cases, eq_false, inr, ==_iff, eq_true, ltb, lt_of_ltb,
  le_of_not_ltb, Option, if-holds, not, and_true,
}
use stellar_xdr_lens.HexInput.{
  all_hex, hex_to_bytes, is_hex_char, is_hex_string, normalize_hex, bytes_to_hex, lower, lower_byte,
  clean_hex_string, then_bytes, without_prefix, without_space, decoded_hex, is_dropped,
  hex_to_base64,
}
use stellar_xdr_lens.Encoding.Hex.{
  hex_decode, hex_value, hex_encode, hex_digit, hex_pair, hex_decode-encode,
}
use stellar_xdr_lens.Encoding.Big.{Bytes}
use stellar_xdr_lens.Errors.{
  ok, Error, err, Ends, Result, ends_err, ends_ok, empty_hex, odd_length_hex, invalid_hex,
}
use stellar_xdr_lens.Encoding.Base64.RoundTrip.{IsDigit}
use stellar_xdr_lens.Encoding.Space.Digits.{trim_space-All}
use stellar_xdr_lens.Encoding.Base64.{std_encode}

lower_is_digit : (c : ℕ) → is_hex_char c ≡ true → hex_value (lower_byte c) ≡ none → ⊥
unfolding is_hex_char hex_value lower_byte
lower_is_digit c h e = ground (arith, h, e)

hex_value-lower : (c : ℕ) → is_hex_char c ≡ true → (n : ℕ) × (hex_value (lower_byte c) ≡ some n)
hex_value-lower c h = elim (Option-cases (hex_value (lower_byte c))) [
  | inl e ↦ absurd (lower_is_digit c h e)
  | inr found ↦ found
]

decoded :
    (s : Text) → all_hex s ≡ true → length s % 2 ≡ 0 → (b : Text) × (hex_decode (lower s) ≡ some b)
unfolding all_hex hex_decode lower
decoded [] h e = ([], refl)
decoded (c ∷ []) h e = absurd (omega arith)
decoded (c ∷ d ∷ s) h e =
    let (hc, rest) = and_true (is_hex_char c) _ h in
    let (hd, hs) = and_true (is_hex_char d) (all_hex s) rest in
    let (hi, p) = hex_value-lower c hc in
    let (lo, q) = hex_value-lower d hd in
    let (b, r) = decoded s hs (omega (arith, e)) in
    ((hi * 16 + lo) ∷ b, rw (p, q, r) (unfold hex_pair in refl))

no_bytes : {e : Error} → ((b : Text) × (err e ≡ ok b)) → false ≡ true
no_bytes (b, h) = cc h

-- HexToBytes succeeds on exactly the texts that IsHexString accepts.
pub hex_to_bytes-is_hex_string :
    (s : Text) → (is_hex_string s ≡ true) ↔ ((b : Text) × (hex_to_bytes s ≡ ok b))
unfolding is_hex_string hex_to_bytes normalize_hex then_bytes decoded_hex
hex_to_bytes-is_hex_string s =
    let c = clean_hex_string s in
    elim (Bool-cases (length c == 0)) [
      | inl e ↦ rw (clean_hex_string, e) ((λ h. cc h), no_bytes)
      | inr e ↦ elim (Bool-cases (length c % 2 == 0)) [
        | inr o ↦ rw (e, o) ((λ h. cc h), no_bytes)
        | inl o ↦ elim (Bool-cases (all_hex c)) [
          | inr x ↦ rw (e, o, x) ((λ h. cc h), no_bytes)
          | inl x ↦
              let (b, f) = decoded c x ((==_iff (length c % 2) 0).0 o) in
              rw (e, o, x, f) ((λ _. (b, refl)), (λ _. refl))
        ]
      ]
    ]

-- What hex.EncodeToString writes.
abbrev pub IsHexDigit : ℕ → Type 0
IsHexDigit c = ((47 < c) × (c < 58)) ⊎ ((96 < c) × (c < 103))

hex_digit-IsHexDigit : (n : ℕ) → n < 16 → IsHexDigit (hex_digit n)
unfolding hex_digit
hex_digit-IsHexDigit n h = elim (Bool-cases (ltb n 10)) [
  | inl e ↦ rw e (inl (omega arith, omega (arith, lt_of_ltb n 10 e)))
  | inr e ↦ rw e (inr (omega (arith, le_of_not_ltb n 10 e), omega arith))
]

pub hex_encode-IsHexDigit : (b : Text) → Bytes b → All IsHexDigit (hex_encode b)
unfolding hex_encode
hex_encode-IsHexDigit [] h = tt
hex_encode-IsHexDigit (x ∷ b) (hx, h) = (
  hex_digit-IsHexDigit (x / 16) (omega arith),
  (hex_digit-IsHexDigit (x % 16) (omega arith), hex_encode-IsHexDigit b h),
)

pub length-hex_encode : (b : Text) → length (hex_encode b) ≡ 2 * length b
unfolding hex_encode
length-hex_encode [] = omega arith
length-hex_encode (x ∷ b) = omega (arith, length-hex_encode b)

pub hex_digits : (s : Text) → All IsHexDigit s → All IsDigit s
hex_digits [] h = tt
hex_digits (c ∷ s) (hc, h) = (omega arith, hex_digits s h)

without_space-hex : (s : Text) → All IsHexDigit s → without_space s ≡ s
unfolding without_space is_dropped
without_space-hex [] h = refl
without_space-hex (c ∷ s) (hc, h) = ground (arith, without_space-hex s h)

without_prefix-hex : (s : Text) → All IsHexDigit s → without_prefix s ≡ s
unfolding without_prefix
without_prefix-hex [] h = refl
without_prefix-hex (c ∷ []) h = refl
without_prefix-hex (c ∷ d ∷ s) (hc, (hd, h)) = ground arith

all_hex-hex : (s : Text) → All IsHexDigit s → all_hex s ≡ true
unfolding all_hex is_hex_char
all_hex-hex [] h = refl
all_hex-hex (c ∷ s) (hc, h) = ground (arith, all_hex-hex s h)

lower-hex : (s : Text) → All IsHexDigit s → lower s ≡ s
unfolding lower lower_byte
lower-hex [] h = refl
lower-hex (c ∷ s) (hc, h) = ground (arith, lower-hex s h)

clean-hex : (s : Text) → 0 < length s → All IsHexDigit s → clean_hex_string s ≡ s
unfolding clean_hex_string
clean-hex s pos h =
    rw (trim_space-All s pos (hex_digits s h), without_space-hex s h) (without_prefix-hex s h)

-- Bytes written in hexadecimal are read back, if there are any.
pub hex_to_bytes-bytes_to_hex :
    (b : Text) → 0 < length b → Bytes b → hex_to_bytes (bytes_to_hex b) ≡ ok b
unfolding hex_to_bytes normalize_hex bytes_to_hex then_bytes decoded_hex
hex_to_bytes-bytes_to_hex b pos h =
    let digits = hex_encode-IsHexDigit b h in
    let two = length-hex_encode b in
    let positive : 0 < length (hex_encode b) = omega (arith, two, pos) in
    rw
      (
        clean_hex_string,
        clean-hex (hex_encode b) positive digits,
        eq_false (length (hex_encode b)) 0 (omega arith),
        eq_true (length (hex_encode b) % 2) 0 (omega (arith, two)),
        all_hex-hex (hex_encode b) digits,
        lower-hex (hex_encode b) digits,
        hex_decode-encode b h,
      )
      refl

normalize_hex-Ends : (s : Text) → Ends (normalize_hex s)
unfolding normalize_hex
normalize_hex-Ends s =
    let c = clean_hex_string s in
    if-holds {A = Result Text} Ends (length c == 0) (ends_err (empty_hex ∷ [])) (
      if-holds {A = Result Text} Ends (not (length c % 2 == 0)) (ends_err (odd_length_hex ∷ [])) (
        if-holds {A = Result Text} Ends (not (all_hex c)) (ends_err (invalid_hex ∷ []))
          (ends_ok (lower c))))

then_bytes-Ends :
    {out : Result Text} (f : Text → Result Text)
    → Ends out
    → ((b : Text) → Ends (f b))
    → Ends (then_bytes out f)
unfolding then_bytes
then_bytes-Ends f (ends_ok b) h = h b
then_bytes-Ends f (ends_err e) h = ends_err e

decoded_hex-Ends : (b : Option Text) → Ends (decoded_hex b)
unfolding decoded_hex
decoded_hex-Ends none = ends_err _
decoded_hex-Ends (some b) = ends_ok b

pub hex_to_base64-Ends : (s : Text) → Ends (hex_to_base64 s)
unfolding hex_to_base64 hex_to_bytes
hex_to_base64-Ends s =
    then_bytes-Ends _
      (then_bytes-Ends _ (normalize_hex-Ends s) (λ n. decoded_hex-Ends (hex_decode n)))
      (λ b. ends_ok (std_encode b))
