-- ===== src/Encoding/Base64.antt =====
-- encoding/base64: StdEncoding and RawStdEncoding. The decoder skips carriage returns and newlines
-- anywhere, and does not check the trailing bits of the last group (it is not Strict).
pub mod RoundTrip
pub mod Length
use stellar_xdr_lens.Prelude.{
  ℕ, ◌+◌, ◌-◌, ◌*◌, ◌/◌, ◌%◌, ◌≡◌, refl, ◌&&◌, ◌||◌, [], ◌∷◌, Option, none, some, Text, codes, leb,
  ltb, ◌==◌, if◌then◌else◌,
}

-- The value of a digit of the standard alphabet.
unfoldable pub base64_value : ℕ → Option ℕ
base64_value c =
    if leb b'A' c && leb c b'Z'
    then some (c - b'A')
    else if leb b'a' c && leb c b'z'
    then some (c - b'a' + 26)
    else if leb b'0' c && leb c b'9'
    then some (c - b'0' + 52)
    else if c == b'+'
    then some 62
    else if c == b'/'
    then some 63
    else none

unfoldable pub base64_digit : ℕ → ℕ
base64_digit n =
    if ltb n 26
    then b'A' + n
    else if ltb n 52
    then b'a' + (n - 26)
    else if ltb n 62
    then b'0' + (n - 52)
    else if n == 62
    then b'+'
    else b'/'

unfoldable pub skip_newlines : Text → Text
skip_newlines [] = []
skip_newlines (c ∷ s) =
    let rest = skip_newlines s in if (c == b'\n') || (c == b'\r') then rest else c ∷ rest

-- One group: four digits make three bytes, three make two, two make one.
unfoldable pub four : Option ℕ → Option ℕ → Option ℕ → Option ℕ → Option Text → Option Text
four (some a) (some b) (some c) (some d) (some rest) =
    some ((a * 4 + b / 16) ∷ (b % 16 * 16 + c / 4) ∷ (c % 4 * 64 + d) ∷ rest)
four _ _ _ _ _ = none

unfoldable pub three : Option ℕ → Option ℕ → Option ℕ → Option Text
three (some a) (some b) (some c) = some ((a * 4 + b / 16) ∷ (b % 16 * 16 + c / 4) ∷ [])
three _ _ _ = none

unfoldable pub two : Option ℕ → Option ℕ → Option Text
two (some a) (some b) = some ((a * 4 + b / 16) ∷ [])
two _ _ = none

-- The padded encoding: a group has four bytes, and only the last may end in padding.
unfoldable pub padded_groups : Text → Option Text
unfolding base64_value four three two
padded_groups [] = some []
padded_groups (a ∷ b ∷ c ∷ d ∷ []) =
    if d == b'='
    then (if c == b'='
        then two (base64_value a) (base64_value b)
        else three (base64_value a) (base64_value b) (base64_value c))
    else four (base64_value a) (base64_value b) (base64_value c) (base64_value d) (some [])
padded_groups (a ∷ b ∷ c ∷ d ∷ e ∷ s) =
    four (base64_value a) (base64_value b) (base64_value c) (base64_value d) (padded_groups (e ∷ s))
padded_groups _ = none

-- The raw encoding has no padding.
unfoldable pub raw_groups : Text → Option Text
unfolding base64_value four three two
raw_groups [] = some []
raw_groups (a ∷ []) = none
raw_groups (a ∷ b ∷ []) = two (base64_value a) (base64_value b)
raw_groups (a ∷ b ∷ c ∷ []) = three (base64_value a) (base64_value b) (base64_value c)
raw_groups (a ∷ b ∷ c ∷ d ∷ s) =
    four (base64_value a) (base64_value b) (base64_value c) (base64_value d) (raw_groups s)

-- base64.StdEncoding.DecodeString and base64.RawStdEncoding.DecodeString; `none` is an error.
unfoldable pub std_decode : Text → Option Text
unfolding padded_groups skip_newlines
std_decode s = padded_groups (skip_newlines s)

unfoldable pub raw_std_decode : Text → Option Text
unfolding raw_groups skip_newlines
raw_std_decode s = raw_groups (skip_newlines s)

-- base64.StdEncoding.EncodeToString.
unfoldable pub std_encode : Text → Text
unfolding base64_digit
std_encode [] = []
std_encode (x ∷ []) = base64_digit (x / 4) ∷ base64_digit (x % 4 * 16) ∷ b'=' ∷ b'=' ∷ []
std_encode (x ∷ y ∷ []) =
    base64_digit (x / 4)
    ∷ base64_digit (x % 4 * 16 + y / 16)
    ∷ base64_digit (y % 16 * 4)
    ∷ b'='
    ∷ []
std_encode (x ∷ y ∷ z ∷ s) =
    base64_digit (x / 4)
    ∷ base64_digit (x % 4 * 16 + y / 16)
    ∷ base64_digit (y % 16 * 4 + z / 64)
    ∷ base64_digit (z % 64)
    ∷ std_encode s

encode_runs : std_encode (codes "hello") ≡ codes "aGVsbG8="
unfolding std_encode
encode_runs = refl

decode_runs : std_decode (codes "aGVs\nbG8=") ≡ some (codes "hello")
unfolding std_decode
decode_runs = refl

decode_unpadded :
    (std_decode (codes "aGVsbG8") ≡ none)
    × (raw_std_decode (codes "aGVsbG8") ≡ some (codes "hello"))
unfolding std_decode raw_std_decode
decode_unpadded = (refl, refl)
