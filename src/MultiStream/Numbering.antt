-- ===== src/MultiStream/Numbering.antt =====
-- The numbers of the records that Next and DecodeAll return.
use stellar_xdr_lens.Prelude.{
  ◌+◌, ◌<◌, ◌≡◌, ◌∷◌, ◌++◌, [], false, List, Text, length, ℕ, sym, append_assoc,
}
use stellar_xdr_lens.MultiStream.Decoder.{MultiStreamDecoder, MultiStreamRecord, is_comment}
use stellar_xdr_lens.Errors.{Result, ok, Error, err}
use mathlib.Core.Path.{subst}

-- Records in order: their indexes count up from `count`, their lines are numbered beyond `line_num` and
-- upwards, and none of them is blank or a comment.
pub data Numbered {V : Type 0} (comments : List Text)
    : ℕ → ℕ → List (MultiStreamRecord V) → Type 0 where
  no_records : {count line_num : ℕ} → Numbered comments count line_num []
  more_records :
      {count line_num : ℕ} {rec : MultiStreamRecord V} {records : List (MultiStreamRecord V)}
      → rec.record_index ≡ count
      → line_num < rec.line_number
      → 0 < length rec.raw_line
      → is_comment comments rec.raw_line ≡ false
      → Numbered comments (count + 1) rec.line_number records
      → Numbered comments count line_num (rec ∷ records)

-- A record that Next returns, and the decoder behind it.
pub record NextOf {V : Type 0} (d : MultiStreamDecoder) (rec : MultiStreamRecord V)
    (d' : MultiStreamDecoder) : Type 0 where
  pub index_is_count : rec.record_index ≡ d.record_count
  pub line_is_later : d.line_num < rec.line_number
  pub line_not_blank : 0 < length rec.raw_line
  pub line_no_comment : is_comment d.comment_chars rec.raw_line ≡ false
  pub counted_on : d'.record_count ≡ d.record_count + 1
  pub line_kept : d'.line_num ≡ rec.line_number
  pub comments_kept : d'.comment_chars ≡ d.comment_chars
  pub source_shorter : length d'.source < length d.source

pub data Advanced {V : Type 0} (d : MultiStreamDecoder)
    : Result (MultiStreamRecord V) × MultiStreamDecoder → Type 0 where
  advanced :
      {rec : MultiStreamRecord V} {d' : MultiStreamDecoder}
      → NextOf d rec d'
      → Advanced d (ok rec, d')
  no_record : {e : Error} {d' : MultiStreamDecoder} → Advanced d (err e, d')

-- The records read so far and those that follow.
pub data AllNumbered {V : Type 0} (d : MultiStreamDecoder) (records : List (MultiStreamRecord V))
    : Result (List (MultiStreamRecord V)) → Type 0 where
  all_numbered :
      {more : List (MultiStreamRecord V)}
      → Numbered d.comment_chars d.record_count d.line_num more
      → AllNumbered d records (ok (records ++ more))
  not_numbered : {e : Error} → AllNumbered d records (err e)

-- What DecodeAll comes to.
pub data AllRecords {V : Type 0} (d : MultiStreamDecoder)
    : Result (List (MultiStreamRecord V)) → Type 0 where
  some_records :
      {records : List (MultiStreamRecord V)}
      → 0 < length records
      → Numbered d.comment_chars d.record_count d.line_num records
      → AllRecords d (ok records)
  an_error : {e : Error} → AllRecords d (err e)

pub AllNumbered-more :
    {V : Type 0} {d d' : MultiStreamDecoder} {rec : MultiStreamRecord V}
    (records : List (MultiStreamRecord V)) {out : Result (List (MultiStreamRecord V))}
    → NextOf d rec d'
    → AllNumbered d' (records ++ rec ∷ []) out
    → AllNumbered d records out
AllNumbered-more {d = d} {d' = d'} {rec = rec} records nx (all_numbered {more = more} h) =
    let rest : Numbered d.comment_chars (d.record_count + 1) rec.line_number more =
      rw (nx.comments_kept, nx.counted_on, nx.line_kept) at h in
    subst (λ rs. AllNumbered d records (ok rs)) (sym (append_assoc records (rec ∷ []) more))
      (all_numbered
        (more_records nx.index_is_count nx.line_is_later nx.line_not_blank nx.line_no_comment rest))
AllNumbered-more records nx not_numbered = not_numbered
