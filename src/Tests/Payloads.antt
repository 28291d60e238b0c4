-- ===== src/Tests/Payloads.antt =====
-- Piped payloads, canonical bytes and footprints.
use stellar_xdr_lens.Errors.{ok, Result}
use stellar_xdr_lens.Prelude.{
  ◌∷◌, ◌++◌, [], ◌≡◌, ◌↔◌, none, refl, List, Text, Option, one_of, codes,
}
use stellar_xdr_lens.Canonical.{canonicalize_xdr, validate_canonical_xdr}
use stellar_xdr_lens.Footprint.{diff_footprint_keys}
use stellar_xdr_lens.Footprint.Laws.{SetDiff, diff_footprint_keys-SetDiff}
use stellar_xdr_lens.Stdin.{decode_pipe, new_stdin_pipe}
use stellar_xdr_lens.Canonical.Laws.{validate_canonical_xdr_iff}
use stellar_xdr_lens.MultiStream.Decoder.{MultiStreamRecord}
use stellar_xdr_lens.Encoding.Base64.{std_encode}
use stellar_xdr_lens.Stream.Next.{after_detection, ensure_detected, settle, read_record}
use stellar_xdr_lens.Stream.Parser.{detect_framing, effective_framing, read_full}
use stellar_xdr_lens.Encoding.Big.{uint32_be}
use stellar_xdr_lens.Stream.Read.{read_record_marking, fragments, fragment_header, fragment_data}

-- A string of one byte, padded with zeros and with something else; nothing is detected.
abbrev nothing_found : Text → Option (List (Option Text))
nothing_found s = none

abbrev as_it_is : Text → Result Text
as_it_is b = ok b

validate_canonical_xdr_iff_example :
    (validate_canonical_xdr nothing_found as_it_is (0 ∷ 0 ∷ 0 ∷ 1 ∷ 65 ∷ 0 ∷ 7 ∷ 0 ∷ []) ≡ ok tt)
    ↔ (canonicalize_xdr nothing_found as_it_is (0 ∷ 0 ∷ 0 ∷ 1 ∷ 65 ∷ 0 ∷ 7 ∷ 0 ∷ [])
        ≡ ok (0 ∷ 0 ∷ 0 ∷ 1 ∷ 65 ∷ 0 ∷ 7 ∷ 0 ∷ []))
validate_canonical_xdr_iff_example =
    validate_canonical_xdr_iff nothing_found as_it_is (0 ∷ 0 ∷ 0 ∷ 1 ∷ 65 ∷ 0 ∷ 7 ∷ 0 ∷ [])

repaired :
    canonicalize_xdr nothing_found as_it_is (0 ∷ 0 ∷ 0 ∷ 1 ∷ 65 ∷ 0 ∷ 7 ∷ 0 ∷ [])
    ≡ ok (0 ∷ 0 ∷ 0 ∷ 1 ∷ 65 ∷ 0 ∷ 0 ∷ 0 ∷ [])
unfolding canonicalize_xdr
repaired = refl

-- Two footprints whose keys are their own bytes, in another order and with one key twice.
abbrev no_summary : Text → Option Text
no_summary k = none

abbrev left_footprint : List Text
left_footprint = (1 ∷ []) ∷ (2 ∷ []) ∷ (1 ∷ []) ∷ []

abbrev right_footprint : List Text
right_footprint = (2 ∷ []) ∷ (3 ∷ []) ∷ []

diff_footprint_keys-SetDiff_example :
    SetDiff as_it_is no_summary left_footprint right_footprint
      (diff_footprint_keys as_it_is no_summary left_footprint right_footprint)
diff_footprint_keys-SetDiff_example =
    diff_footprint_keys-SetDiff as_it_is no_summary left_footprint right_footprint

footprint_labels :
    diff_footprint_keys as_it_is no_summary left_footprint right_footprint
    ≡ ok (record {
      added = codes "ledger key 03" ∷ [];
      removed = codes "ledger key 01" ∷ [];
      common = codes "ledger key 02" ∷ [];
    })
unfolding diff_footprint_keys one_of
footprint_labels = refl

-- A pipe of two lines, and one of a record with record marking.
abbrev keep_value : List Text → MultiStreamRecord Text → Result (List Text)
keep_value vs r = ok (vs ++ r.raw_line ∷ [])

piped_lines :
    decode_pipe as_it_is (λ s t. ok s) (new_stdin_pipe (codes " \nGAAA\n#\nHAAA\n") [])
    ≡ ok (codes "GAAA" ∷ codes "HAAA" ∷ [])
unfolding decode_pipe new_stdin_pipe
piped_lines = refl

piped_chunk :
    decode_pipe as_it_is (λ s t. ok s) (new_stdin_pipe (0x80 ∷ 0 ∷ 0 ∷ 3 ∷ 1 ∷ 2 ∷ 3 ∷ []) [])
    ≡ ok (codes "AQID" ∷ [])
unfolding decode_pipe new_stdin_pipe std_encode after_detection ensure_detected detect_framing
    settle read_record effective_framing uint32_be read_record_marking fragments fragment_header
    read_full fragment_data
piped_chunk = refl
