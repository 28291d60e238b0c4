-- ===== src/MultiStream/Write.antt =====
-- WriteMultiStream and WriteMultiStreamHex. SafeMarshalBase64 is left open as `encode`, and a value that
-- is nil or has no Raw is `none`. What is written up to an error stays written; the io.Writer itself
-- does not fail.
use stellar_xdr_lens.Prelude.{◌∷◌, ◌++◌, [], none, some, List, Text, Option}
use stellar_xdr_lens.Errors.{Result, ok, err, stuck}
use stellar_xdr_lens.HexInput.{base64_to_hex, then_bytes}

-- One line in front of what the values behind it give.
unfoldable pub written : Result Text → Text × Result {0} Unit → Text × Result {0} Unit
written (ok s) (rest, outcome) = (s ++ b'\n' ∷ rest, outcome)
written (err e) rest = ([], err e)
written stuck rest = ([], stuck)

module _ {V : Type 0} (encode : V → Result Text) where
  unfoldable pub write_multi_stream : List (Option V) → Text × Result {0} Unit
  unfolding written
  write_multi_stream [] = ([], ok tt)
  write_multi_stream (none ∷ values) = ([], err [])
  write_multi_stream (some v ∷ values) = written (encode v) (write_multi_stream values)

  unfoldable pub write_multi_stream_hex : List (Option V) → Text × Result {0} Unit
  unfolding written then_bytes base64_to_hex
  write_multi_stream_hex [] = ([], ok tt)
  write_multi_stream_hex (none ∷ values) = ([], err [])
  write_multi_stream_hex (some v ∷ values) =
      written (then_bytes (encode v) base64_to_hex) (write_multi_stream_hex values)
