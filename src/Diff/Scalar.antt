-- ===== src/Diff/Scalar.antt =====
-- Scalars: numbers, and byte strings in their three representations.
use stellar_xdr_lens.Prelude.{
  ◌%◌, ◌&&◌, ◌||◌, ◌∷◌, if◌then◌else◌, ◌==◌, [], true, false, none, some, Option, Text, ℕ, Bool,
  List, codes, length, pos, negsuc, text_eq, leb, not, take, drop,
}
use stellar_xdr_lens.Tree.Value.{
  GoLib, Val, Node, bytes, int, str, kind_eq, note, uint, value, float, kind, show_val, bool, list,
  scalar, children, nil,
}
use stellar_xdr_lens.Diff.Change.{DiffOptions}
use stellar_xdr_lens.Encoding.Space.{trim_space}
use mathlib.Core.List.{reverse}
use stellar_xdr_lens.Encoding.Base64.{std_decode, raw_std_decode}
use stellar_xdr_lens.Encoding.Hex.{hex_decode}

unfoldable pub trim_prefix : Text → Text → Text
trim_prefix p s = if text_eq (take (length p) s) p then drop (length p) s else s

unfoldable pub is_hex_digit : ℕ → Bool
is_hex_digit c =
    (leb b'0' c && leb c b'9') || (leb b'a' c && leb c b'f') || (leb b'A' c && leb c b'F')

unfoldable pub all_hex : Text → Bool
all_hex [] = true
all_hex (c ∷ s) = is_hex_digit c && all_hex s

-- bytesFromHex; `none` is the false result.
unfoldable pub bytes_from_hex : Text → Option Text
bytes_from_hex text =
    let s = trim_prefix (codes "0X") (trim_prefix (codes "0x") (trim_space text)) in
    if (length s == 0) || not (length s % 2 == 0)
    then none
    else if not (all_hex s)
    then none
    else hex_decode s

unfoldable pub nonempty : Option Text → Option Text
nonempty none = none
nonempty (some b) = if length b == 0 then none else some b

unfoldable pub or_else {ℓ} : {A : Type ℓ} → Option A → Option A → Option A
or_else none y = y
or_else (some a) y = some a

unfoldable pub with_default {ℓ} : {A : Type ℓ} → A → Option A → A
with_default a none = a
with_default a (some b) = b

unfoldable pub is_some {ℓ} : {A : Type ℓ} → Option A → Bool
is_some none = false
is_some (some a) = true

-- bytesFromBase64

unfoldable pub bytes_from_base64 : Text → Option Text
bytes_from_base64 text =
    let s = trim_space text in
    if length s == 0 then none else or_else (nonempty (std_decode s)) (nonempty (raw_std_decode s))

unfoldable pub bytes_match : Option Text → Option Text → Bool
bytes_match (some x) (some y) = text_eq x y
bytes_match (some x) none = false
bytes_match none y = false

module _ {F : Type 0} where
  unfoldable pub string_of : Val F → Option Text
  string_of (str s) = some s
  string_of _ = none

  -- extractDirectBytes
  unfoldable pub extract_direct_bytes : Val F → Option Text
  extract_direct_bytes (bytes b) = if length b == 0 then none else some b
  extract_direct_bytes _ = none

module _ (go : GoLib) where
  -- asNumber
  unfoldable pub as_number : Val go.F → Option go.F
  as_number (int z) = some (go.of_int z)
  as_number (uint n) = some (go.of_int (pos n))
  as_number (float f) = some f
  as_number (str s) = go.parse_f s
  as_number (bool b) = none
  as_number (bytes b) = none
  as_number nil = none

  unfoldable pub byte_of : Option go.F → Option ℕ
  byte_of none = none
  byte_of (some f) =
      if go.lt_f f go.zero_f || (go.lt_f (go.of_int (pos 255)) f || not (go.eq_f (go.floor_f f) f))
      then none
      else some (go.to_uint f)

  unfoldable pub cons_byte : Option ℕ → Option Text → Option Text
  cons_byte (some b) (some rest) = some (b ∷ rest)
  cons_byte (some b) none = none
  cons_byte none rest = none

  unfoldable pub scalar_byte : Node go.F → Option ℕ
  scalar_byte n = if kind_eq (kind n) scalar then byte_of (as_number (value n)) else none

  unfoldable pub child_bytes : List (Node go.F) → Option Text
  child_bytes [] = some []
  child_bytes (c ∷ cs) = cons_byte (scalar_byte c) (child_bytes cs)

  -- extractListBytes
  unfoldable pub extract_list_bytes : Node go.F → Option Text
  extract_list_bytes n =
      if not (kind_eq (kind n) list) || (length (children n) == 0)
      then none
      else child_bytes (children n)

  unfoldable pub raw_bytes : Node go.F → Option Text
  raw_bytes n = or_else (extract_direct_bytes (value n)) (extract_list_bytes n)

  -- Case 1 of nodesBinaryEqual: two strings.
  unfoldable pub strings_binary_equal : Text → Text → Bool
  strings_binary_equal s t =
      bytes_match (bytes_from_hex s) (bytes_from_base64 t)
      || (bytes_match (bytes_from_base64 s) (bytes_from_hex t)
          || bytes_match (bytes_from_hex s) (bytes_from_hex t))

  unfoldable pub raw_matches_text : Option Text → Option Text → Bool
  raw_matches_text raw none = false
  raw_matches_text raw (some s) =
      bytes_match raw (bytes_from_hex s) || bytes_match raw (bytes_from_base64 s)

  -- Case 2: bytes on one side at least.
  unfoldable pub raw_binary_equal : Option Text → Option Text → Option Text → Option Text → Bool
  raw_binary_equal (some x) (some y) s t = text_eq x y
  raw_binary_equal (some x) none s t = raw_matches_text (some x) t
  raw_binary_equal none (some y) s t = raw_matches_text (some y) s
  raw_binary_equal none none s t = false

  unfoldable pub both_strings : Node go.F → Node go.F → Option (Text × Text)
  both_strings a b = elim (string_of (value a)) [
    | none ↦ none
    | some s ↦ elim (string_of (value b)) [
      | none ↦ none
      | some t ↦ if kind_eq (kind a) scalar && kind_eq (kind b) scalar then some (s, t) else none
    ]
  ]

  -- nodesBinaryEqual
  unfoldable pub nodes_binary_equal : Node go.F → Node go.F → Bool
  nodes_binary_equal a b = elim (both_strings a b) [
    | some (s, t) ↦ strings_binary_equal s t
    | none ↦
        raw_binary_equal (raw_bytes a) (raw_bytes b) (string_of (value a)) (string_of (value b))
  ]

  -- reflect.DeepEqual on the values of scalars.
  unfoldable pub deep_equal : Val go.F → Val go.F → Bool
  deep_equal nil nil = true
  deep_equal (str s) (str t) = text_eq s t
  deep_equal (bool true) (bool c) = c
  deep_equal (bool false) (bool c) = not c
  deep_equal (int (pos n)) (int (pos m)) = n == m
  deep_equal (int (negsuc n)) (int (negsuc m)) = n == m
  deep_equal (uint n) (uint m) = n == m
  deep_equal (float f) (float g) = go.eq_f f g
  deep_equal (bytes s) (bytes t) = text_eq s t
  deep_equal _ _ = false

  unfoldable pub trim_left_quotes : Text → Text
  trim_left_quotes [] = []
  trim_left_quotes (c ∷ s) = let rest = trim_left_quotes s in if c == b'"' then rest else c ∷ s

  -- notesCompatible: equal but for quotes at the ends.
  unfoldable pub notes_compatible : Text → Text → Bool
  notes_compatible s t =
      let clean = λ (u : Text). reverse (trim_left_quotes (reverse (trim_left_quotes u))) in
      text_eq s t || text_eq (clean s) (clean t)

  unfoldable pub within : go.F → Option go.F → Option go.F → Bool
  within limit (some x) (some y) = go.le_f (go.abs_f (go.sub_f x y)) limit
  within limit (some x) none = false
  within limit none y = false

  unfoldable pub effective_threshold : DiffOptions go.F → go.F
  effective_threshold o =
      if go.eq_f o.threshold go.zero_f && go.lt_f go.zero_f o.diff_threshold
      then o.diff_threshold
      else o.threshold

  -- The first test of sameScalarWithOptions: equal notes, and equal values or equal renderings.
  unfoldable pub same_rendering : Node go.F → Node go.F → Bool
  same_rendering a b =
      text_eq (note a) (note b)
      && (deep_equal (value a) (value b) || text_eq (show_val go (value a)) (show_val go (value b)))

  -- sameScalarWithOptions
  unfoldable pub same_scalar : DiffOptions go.F → Node go.F → Node go.F → Bool
  same_scalar o a b =
      let limit = effective_threshold o in
      same_rendering a b
      || ((go.lt_f go.zero_f limit && within limit (as_number (value a)) (as_number (value b)))
          || (nodes_binary_equal a b
              && (text_eq (note a) (note b)
                  || ((length (note a) == 0)
                      || ((length (note b) == 0) || notes_compatible (note a) (note b))))))
