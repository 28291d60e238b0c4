-- ===== src/MultiStream/Total.antt =====
-- DecodeAll on every stream, where the decoder of payloads returns.
use stellar_xdr_lens.MultiStream.Numbering.{
  advanced, no_record, all_numbered, not_numbered, some_records, an_error, no_records,
  AllNumbered-more,
}
use stellar_xdr_lens.Prelude.{
  ◌<◌, ◌∷◌, ◌++◌, zero, suc, [], Text, ℕ, List, length, arith, if-holds, append-nil,
}
use stellar_xdr_lens.Errors.{Result, Ends, is_eof, ok}
use stellar_xdr_lens.MultiStream.Decoder.{
  all_records, decode_all, not_empty, record_done, MultiStreamDecoder, MultiStreamRecord,
}
use stellar_xdr_lens.MultiStream.Numbering.{AllRecords, Advanced, AllNumbered}
use stellar_xdr_lens.MultiStream.Advance.{next_record-Advanced}
use mathlib.Core.Path.{subst}

module _ {V : Type 0} (decode : Text → Result V) (decode_as : Text → Text → Result V)
    (decode_ends : (s : Text) → Ends (decode s))
    (decode_as_ends : (s t : Text) → Ends (decode_as s t)) where
  record_done-AllNumbered :
      (d : MultiStreamDecoder) (records : List (MultiStreamRecord V))
      (go_on : List (MultiStreamRecord V)
        → MultiStreamDecoder
        → Result (List (MultiStreamRecord V)))
      {out : Result (MultiStreamRecord V) × MultiStreamDecoder}
      → Advanced d out
      → ((rs : List (MultiStreamRecord V)) (d' : MultiStreamDecoder)
          → length d'.source < length d.source
          → AllNumbered d' rs (go_on rs d'))
      → AllNumbered d records (record_done decode decode_as go_on records out)
  unfolding record_done
  record_done-AllNumbered d records go_on (advanced {rec = rec} {d' = d'} nx) h =
      AllNumbered-more records nx (h (records ++ rec ∷ []) d' nx.source_shorter)
  record_done-AllNumbered d records go_on (no_record {e = e}) h =
      if-holds {A = Result (List (MultiStreamRecord V))} (AllNumbered d records) (is_eof e)
        (subst (λ rs. AllNumbered d records (ok rs)) (append-nil records) (all_numbered no_records))
        not_numbered

  all_records-AllNumbered :
      (fuel : ℕ) (records : List (MultiStreamRecord V)) (d : MultiStreamDecoder)
      → length d.source < fuel
      → AllNumbered d records (all_records decode decode_as fuel records d)
  unfolding all_records
  all_records-AllNumbered zero records d h = absurd (omega (arith, h))
  all_records-AllNumbered (suc fuel) records d h =
      record_done-AllNumbered d records (all_records decode decode_as fuel)
        (next_record-Advanced decode decode_as decode_ends decode_as_ends d)
        (λ rs d' lt. all_records-AllNumbered fuel rs d' (omega (arith, h, lt)))

  not_empty-AllRecords :
      {d : MultiStreamDecoder} {out : Result (List (MultiStreamRecord V))}
      → AllNumbered d [] out
      → AllRecords d (not_empty decode decode_as out)
  unfolding not_empty
  not_empty-AllRecords (all_numbered {more = []} h) = an_error
  not_empty-AllRecords (all_numbered {more = rec ∷ records} h) = some_records (omega arith) h
  not_empty-AllRecords not_numbered = an_error

  -- Where the decoder of payloads returns, DecodeAll returns: an error, or records, at least one, whose
  -- indexes count up, whose lines are numbered upwards, and none of which is blank or a comment.
  pub decode_all-AllRecords :
      (d : MultiStreamDecoder) → AllRecords d (decode_all decode decode_as d)
  unfolding decode_all
  decode_all-AllRecords d =
      not_empty-AllRecords (all_records-AllNumbered (suc (length d.source)) [] d (omega arith))
