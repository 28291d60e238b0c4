-- ===== src/Stream/Write.antt =====
-- The three writers. What they write is the list of bytes; an io.Writer that fails is left out.
use stellar_xdr_lens.Prelude.{
  ℕ, zero, suc, ◌+◌, ◌%◌, ◌^◌, [], ◌∷◌, ◌++◌, ◌||◌, Text, length, take, drop, leb, ◌==◌,
  if◌then◌else◌,
}
use stellar_xdr_lens.Encoding.Big.{put_uint32_be}
use stellar_xdr_lens.Encoding.Base64.{std_encode}

-- `RFC5531LastFragMask | v` on uint32: the highest bit is set.
unfoldable pub set_last : ℕ → ℕ
set_last v = if leb (2 ^ 31) v then v else 2 ^ 31 + v

-- The loop over fragments, on the part of the record behind `offset`. With a positive fragment size
-- each round takes a byte, so the length is fuel enough.
unfoldable pub write_fragments : ℕ → ℕ → Text → Text
unfolding set_last
write_fragments zero size rest = []
write_fragments (suc fuel) size rest =
    let more = write_fragments fuel size (drop size rest) in
    if length rest == 0
    then []
    else if leb (length rest) size
    then put_uint32_be (set_last (length rest)) ++ rest
    else put_uint32_be size ++ (take size rest ++ more)

-- WriteRecordMarking. The length is taken as a uint32, also where it is the loop's bound.
unfoldable pub write_record_marking : Text → ℕ → Text
unfolding write_fragments set_last
write_record_marking rec max_fragment_size =
    let total = length rec % 2 ^ 32 in
    if length rec == 0
    then put_uint32_be (2 ^ 31)
    else if (max_fragment_size == 0) || leb total max_fragment_size
    then put_uint32_be (set_last total) ++ rec
    else write_fragments total max_fragment_size (take total rec)

-- WriteLengthPrefixed.
unfoldable pub write_length_prefixed : Text → Text
write_length_prefixed rec = put_uint32_be (length rec % 2 ^ 32) ++ rec

-- WriteBase64Line.
unfoldable pub write_base64_line : Text → Text
write_base64_line rec = std_encode rec ++ b'\n' ∷ []
