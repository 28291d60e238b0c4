-- ===== src/Canonical.antt =====
-- pkg/lens/canonical.go: validation and repair of XDR bytes. Detect and xdr.Marshal are left open: `detect`
-- gives the values of the candidates, best first, and `marshal` the bytes of a value. A value that is
-- nil is `none`.
pub mod Laws
use stellar_xdr_lens.Prelude.{
  ◌∷◌, ◌++◌, [], ◌+◌, ◌-◌, ◌%◌, ◌&&◌, ◌==◌, if◌then◌else◌, none, some, Text, ℕ, Option, List, drop,
  leb, length, take, ltb, replicate,
}
use stellar_xdr_lens.Encoding.Big.{uint32_be}
use stellar_xdr_lens.Errors.{
  Result, err, ok, non_canonical_padding, misaligned_xdr, non_canonical, stuck, trailing_garbage,
}
use stellar_xdr_lens.Encoding.Base64.{std_encode}

-- The bytes of padding behind a string of this length.
unfoldable pub pad_len : ℕ → ℕ
pad_len val_len = if val_len % 4 == 0 then 0 else 4 - val_len % 4

-- Where the padding starts, if the bytes are one string or opaque value that has some.
unfoldable pub pad_start : Text → Option ℕ
unfolding uint32_be pad_len
pad_start xdr =
    let val_len = uint32_be xdr in
    let n = pad_len val_len in
    if leb 4 (length xdr) && ((4 + val_len + n == length xdr) && ltb 0 n)
    then some (4 + val_len)
    else none

-- The loop over the padding.
unfoldable pub zero_padding : Text → Result {0} Unit
zero_padding [] = ok tt
zero_padding (b ∷ bs) =
    let rest = zero_padding bs in
    if b == 0 then rest else err (non_canonical_padding ∷ non_canonical ∷ [])

-- The loop over two texts of one length.
unfoldable pub same_bytes : Text → Text → Result {0} Unit
same_bytes (x ∷ xs) (y ∷ ys) =
    let rest = same_bytes xs ys in
    if x == y
    then rest
    else if y == 0
    then err (non_canonical_padding ∷ non_canonical ∷ [])
    else err (non_canonical ∷ [])
same_bytes xs ys = ok tt

unfoldable pub same_encoding : Text → Result Text → Result {0} Unit
unfolding same_bytes
same_encoding raw (ok b) =
    if length raw == length b
    then same_bytes raw b
    else if ltb (length b) (length raw)
    then err (trailing_garbage ∷ non_canonical ∷ [])
    else err (non_canonical ∷ [])
same_encoding raw (err e) = err e
same_encoding raw stuck = stuck

unfoldable pub aligned : Result Text → Result Text
aligned (ok b) = if length b % 4 == 0 then ok b else err (misaligned_xdr ∷ non_canonical ∷ [])
aligned (err e) = err e
aligned stuck = stuck

unfoldable pub check_padding : Text → Option ℕ → Result {0} Unit
unfolding zero_padding
check_padding xdr none = ok tt
check_padding xdr (some start) = zero_padding (drop start xdr)

unfoldable pub clear_padding : Text → Option ℕ → Text
clear_padding xdr none = xdr
clear_padding xdr (some start) = take start xdr ++ replicate (length xdr - start) 0

module _ {V : Type 0} (detect : Text → Option (List (Option V))) (marshal : V → Result Text) where
  unfoldable pub canonical_encode : Option V → Result Text
  unfolding aligned
  canonical_encode none = err (non_canonical ∷ [])
  canonical_encode (some v) = aligned (marshal v)

  unfoldable pub check_canonical_encoding : Text → Option V → Result {0} Unit
  unfolding same_encoding canonical_encode
  check_canonical_encoding raw v =
      if length raw % 4 == 0
      then same_encoding raw (canonical_encode v)
      else err (misaligned_xdr ∷ non_canonical ∷ [])

  unfoldable pub validate_detected : Text → Option (List (Option V)) → Result {0} Unit
  unfolding check_canonical_encoding check_padding pad_start
  validate_detected xdr (some (v ∷ vs)) = check_canonical_encoding xdr v
  validate_detected xdr _ = check_padding xdr (pad_start xdr)

  unfoldable pub validate_canonical_xdr : Text → Result {0} Unit
  unfolding validate_detected std_encode
  validate_canonical_xdr xdr =
      let checked = validate_detected xdr (detect (std_encode xdr)) in
      if length xdr == 0
      then ok tt
      else if length xdr % 4 == 0
      then checked
      else err (misaligned_xdr ∷ non_canonical ∷ [])

  unfoldable pub canonicalize_detected : Text → Option (List (Option V)) → Result Text
  unfolding canonical_encode clear_padding pad_start
  canonicalize_detected xdr (some (v ∷ vs)) = canonical_encode v
  canonicalize_detected xdr _ = ok (clear_padding xdr (pad_start xdr))

  unfoldable pub canonicalize_xdr : Text → Result Text
  unfolding canonicalize_detected std_encode
  canonicalize_xdr xdr =
      let clean = canonicalize_detected xdr (detect (std_encode xdr)) in
      if length xdr == 0
      then ok []
      else if length xdr % 4 == 0
      then clean
      else err (misaligned_xdr ∷ non_canonical ∷ [])
