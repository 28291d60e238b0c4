-- ===== src/HexInput.antt =====
-- pkg/lens/hex_input.go: hexadecimal payloads cleaned, checked and decoded, and normalizeInput of
-- decode.go. Texts are valid UTF-8, so that strings.Map works on bytes.
pub mod Laws
pub mod Standard
use stellar_xdr_lens.Prelude.{
  ◌+◌, ◌%◌, ◌≡◌, ◌&&◌, ◌||◌, ◌∷◌, if◌then◌else◌, ◌==◌, [], true, false, none, some, refl, Option,
  Text, codes, ℕ, Bool, leb, length, not,
}
use stellar_xdr_lens.Encoding.Base64.{std_decode, std_encode}
use stellar_xdr_lens.Encoding.Hex.{hex_decode, hex_encode}
use stellar_xdr_lens.Encoding.Space.{trim_space}
use stellar_xdr_lens.Errors.{
  Result, err, ok, corrupt_input, empty_hex, invalid_hex, stuck, odd_length_hex,
}

unfoldable pub is_hex_char : ℕ → Bool
is_hex_char c =
    (leb b'0' c && leb c b'9') || ((leb b'a' c && leb c b'f') || (leb b'A' c && leb c b'F'))

-- The bytes that strings.Map takes out.
unfoldable pub is_dropped : ℕ → Bool
is_dropped c = (c == b'\n') || ((c == b'\r') || ((c == b'\t') || (c == b' ')))

unfoldable pub without_space : Text → Text
unfolding is_dropped
without_space [] = []
without_space (c ∷ s) = let rest = without_space s in if is_dropped c then rest else c ∷ rest

unfoldable pub without_prefix : Text → Text
without_prefix [] = []
without_prefix (c ∷ []) = c ∷ []
without_prefix (c ∷ d ∷ s) = if (c == b'0') && ((d == b'x') || (d == b'X')) then s else c ∷ d ∷ s

unfoldable pub clean_hex_string : Text → Text
unfolding trim_space without_space without_prefix
clean_hex_string s = without_prefix (without_space (trim_space s))

-- The loop over the characters: none of them is refused.
unfoldable pub all_hex : Text → Bool
unfolding is_hex_char
all_hex [] = true
all_hex (c ∷ s) = is_hex_char c && all_hex s

unfoldable pub is_hex_string : Text → Bool
unfolding clean_hex_string all_hex
is_hex_string s =
    let c = clean_hex_string s in
    if (length c == 0) || not (length c % 2 == 0) then false else all_hex c

unfoldable pub lower_byte : ℕ → ℕ
lower_byte c = if leb b'A' c && leb c b'Z' then c + 32 else c

-- strings.ToLower, where all characters are hexadecimal digits.
unfoldable pub lower : Text → Text
unfolding lower_byte
lower [] = []
lower (c ∷ s) = lower_byte c ∷ lower s

unfoldable pub normalize_hex : Text → Result Text
unfolding clean_hex_string all_hex lower
normalize_hex s =
    let c = clean_hex_string s in
    if length c == 0
    then err (empty_hex ∷ [])
    else if not (length c % 2 == 0)
    then err (odd_length_hex ∷ [])
    else if not (all_hex c)
    then err (invalid_hex ∷ [])
    else ok (lower c)

unfoldable pub decoded_hex : Option Text → Result Text
decoded_hex none = err (invalid_hex ∷ [])
decoded_hex (some b) = ok b

unfoldable pub then_bytes : Result Text → (Text → Result Text) → Result Text
then_bytes (ok s) f = f s
then_bytes (err e) f = err e
then_bytes stuck f = stuck

unfoldable pub hex_to_bytes : Text → Result Text
unfolding normalize_hex then_bytes decoded_hex hex_decode
hex_to_bytes s = then_bytes (normalize_hex s) (λ norm. decoded_hex (hex_decode norm))

unfoldable pub bytes_to_hex : Text → Text
unfolding hex_encode
bytes_to_hex b = hex_encode b

unfoldable pub hex_to_base64 : Text → Result Text
unfolding hex_to_bytes then_bytes std_encode
hex_to_base64 s = then_bytes (hex_to_bytes s) (λ b. ok (std_encode b))

unfoldable pub contains_any : ℕ → ℕ → Text → Bool
contains_any a b [] = false
contains_any a b (c ∷ s) = (c == a) || ((c == b) || contains_any a b s)

-- strings.NewReplacer("-", "+", "_", "/").Replace.
unfoldable pub from_url_safe : Text → Text
from_url_safe [] = []
from_url_safe (c ∷ s) =
    (if c == b'-' then b'+' else if c == b'_' then b'/' else c) ∷ from_url_safe s

-- normalizeInput of decode.go.
unfoldable pub normalize_input : Text → Text
unfolding trim_space without_space contains_any from_url_safe
normalize_input s =
    let t = without_space (trim_space s) in
    if contains_any b'-' b'_' t && not (contains_any b'+' b'/' t) then from_url_safe t else t

unfoldable pub encoded_hex : Option Text → Result Text
unfolding hex_encode
encoded_hex none = err (corrupt_input ∷ [])
encoded_hex (some b) = ok (hex_encode b)

-- Base64ToHex; its error for an empty input wraps nothing.
unfoldable pub base64_to_hex : Text → Result Text
unfolding normalize_input encoded_hex std_decode
base64_to_hex s =
    let norm = normalize_input s in
    if length norm == 0 then err [] else encoded_hex (std_decode norm)

prefixed : hex_to_bytes (codes " 0xAb 0c\n") ≡ ok (0xab ∷ 0x0c ∷ [])
unfolding hex_to_bytes
prefixed = refl
