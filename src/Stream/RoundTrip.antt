-- ===== src/Stream/RoundTrip.antt =====
-- WriteRecordMarking with readRecordMarking, and WriteLengthPrefixed with readLengthPrefixed.
use stellar_xdr_lens.Prelude.{
  ℕ, ◌+◌, ◌≤◌, ◌<◌, ◌^◌, ◌≡◌, refl, ap, ◌∙◌, ◌++◌, Text, length, arith, ◌%◌, append_assoc,
  ltb-false, ◌∷◌, [], ◌⊎◌, ◌||◌, ◌==◌, true, false, leb, eq_false, take-length, suc, inl,
  length-append, inr,
}
use stellar_xdr_lens.Encoding.Big.{put_uint32_be, uint32_be-put, length-put_uint32_be}
use stellar_xdr_lens.Errors.{ok}
use stellar_xdr_lens.Stream.Parser.{StreamParser}
use stellar_xdr_lens.Stream.Read.{
  read_length_prefixed, length_header, fragments, length_body, fragment_header, read_record_marking,
}
use stellar_xdr_lens.Stream.ReadFull.{advance, read_full-prefix}
use stellar_xdr_lens.Stream.Write.{
  write_length_prefixed, set_last, write_record_marking, write_fragments,
}
use stellar_xdr_lens.Stream.Fragments.{
  last_round, two_reads, same_outcome, length-le-write_fragments, fragments-write,
}

-- A record in the length-prefixed framing is read back whole, if it is within the limit.
pub read_length_prefixed-write :
    (p : StreamParser) (rec rest : Text)
    → p.input ≡ write_length_prefixed rec ++ rest
    → length rec ≤ p.max_record_size
    → length rec < 2 ^ 32
    → read_length_prefixed p ≡ (ok rec, advance p rest (4 + length rec))
read_length_prefixed-write p rec rest e fits small =
    let n = length rec in
    let whole : length rec % 2 ^ 32 ≡ n = omega arith in
    let e' : p.input ≡ put_uint32_be n ++ (rec ++ rest) =
      e
      ∙ (unfold write_length_prefixed in
          ap (λ k. (put_uint32_be k ++ rec) ++ rest) whole
          ∙ append_assoc (put_uint32_be n) rec rest) in
    let (first, second) = two_reads p n n rec rest e' refl in
    unfold read_length_prefixed in
    rw first (
      unfold length_header in
      rw (uint32_be-put n small, ltb-false p.max_record_size n fits, second)
        (unfold length_body in refl))

empty_record :
    (p : StreamParser) (rest : Text)
    → p.input ≡ put_uint32_be (2 ^ 31) ++ rest
    → read_record_marking p ≡ (ok [], advance p rest 4)
empty_record p rest e =
    let header = put_uint32_be (2 ^ 31) in
    unfold read_record_marking fragments in
    rw (read_full-prefix p 4 header rest e (length-put_uint32_be (2 ^ 31)))
      (unfold fragment_header in rw (uint32_be-put (2 ^ 31) (omega arith)))

single_fragment :
    (p : StreamParser) (rec rest : Text)
    → p.input ≡ (put_uint32_be (set_last (length rec)) ++ rec) ++ rest
    → 0 < length rec
    → length rec ≤ p.max_record_size
    → length rec < 2 ^ 31
    → read_record_marking p ≡ (ok rec, advance p rest (4 + length rec))
single_fragment p rec rest e pos fits small =
    let header = put_uint32_be (set_last (length rec)) in
    unfold read_record_marking in
    last_round p (length p.input) rec rest [] (e ∙ append_assoc header rec rest) pos small
      (omega arith) (omega arith)

-- Either one fragment serves, or the record is cut.
one_fragment :
    (rec : Text) (size : ℕ)
    → ((size ≡ 0) ⊎ (length rec ≤ size)) ⊎ ((0 < size) × (size < length rec))
one_fragment rec size = grind arith

written_empty : (size : ℕ) → write_record_marking [] size ≡ put_uint32_be (2 ^ 31)
unfolding write_record_marking
written_empty size = refl

written_single :
    (rec : Text) (size : ℕ)
    → 0 < length rec
    → length rec < 2 ^ 31
    → (size ≡ 0) ⊎ (length rec ≤ size)
    → write_record_marking rec size ≡ put_uint32_be (set_last (length rec)) ++ rec
written_single rec size pos small one =
    let n = length rec in
    let whole : n % 2 ^ 32 ≡ n = omega arith in
    let test : ((size == 0) || leb n size) ≡ true = ground arith in
    unfold write_record_marking in rw (whole, eq_false n 0 (omega arith), test)

written_many :
    (rec : Text) (size : ℕ)
    → 0 < size
    → size < length rec
    → length rec < 2 ^ 31
    → write_record_marking rec size ≡ write_fragments (length rec) size rec
written_many rec size pos lt small =
    let n = length rec in
    let whole : n % 2 ^ 32 ≡ n = omega arith in
    let test : ((size == 0) || leb n size) ≡ false = ground arith in
    unfold write_record_marking in rw (whole, eq_false n 0 (omega arith), test, take-length rec)

pub write_record_marking-pos :
    (rec : Text) (size : ℕ) → length rec < 2 ^ 31 → 0 < length (write_record_marking rec size)
write_record_marking-pos [] size small =
    omega (arith, ap length (written_empty size), length-put_uint32_be (2 ^ 31))
write_record_marking-pos (x ∷ xs) size small =
    let rec = x ∷ xs in
    let n = length rec in
    elim (one_fragment rec size) [
      | inl one ↦ omega (
        arith,
        ap length (written_single rec size (omega arith) small one),
        length-append {0} (put_uint32_be (set_last n)) rec,
      )
      | inr many ↦ omega (
        arith,
        ap length (written_many rec size many.0 many.1 small),
        length-le-write_fragments n size rec many.0 (omega arith),
      )
    ]

-- Whatever the fragment size, a record that was written with record marking is read back whole, and
-- the parser has taken exactly the bytes that were written. The record must be within the reader's
-- limit and have less than 2^31 bytes, and the fragment size must be less than 2^31.
pub read_record_marking-write :
    (p : StreamParser) (rec rest : Text) (size : ℕ)
    → p.input ≡ write_record_marking rec size ++ rest
    → length rec ≤ p.max_record_size
    → length rec < 2 ^ 31
    → size < 2 ^ 31
    → read_record_marking p ≡ (ok rec, advance p rest (length (write_record_marking rec size)))
read_record_marking-write p [] rest size e fits small fragment =
    rw written_empty
      (empty_record p rest (rw written_empty at e) ∙ rw (length-put_uint32_be (2 ^ 31)))
read_record_marking-write p (x ∷ xs) rest size e fits small fragment =
    elim (one_fragment (x ∷ xs) size) [
      | inl one ↦
          let n = length (x ∷ xs) in
          let w = written_single (x ∷ xs) size (omega arith) small one in
          rw w (
            single_fragment p (x ∷ xs) rest (rw w at e) (omega arith) fits small
            ∙ same_outcome p rest refl (
                omega (
                  arith,
                  length-append {0} (put_uint32_be (set_last n)) (x ∷ xs),
                  length-put_uint32_be (set_last n),
                )))
      | inr many ↦
          let n = length (x ∷ xs) in
          let w = written_many (x ∷ xs) size many.0 many.1 small in
          let fuel : n ≤ suc (length p.input) = omega (
            arith,
            ap length e,
            ap length w,
            length-append {0} (write_record_marking (x ∷ xs) size) rest,
            length-le-write_fragments n size (x ∷ xs) many.0 (omega arith),
          ) in
          rw w (
            unfold read_record_marking in
            fragments-write n (suc (length p.input)) size (x ∷ xs) rest [] p (rw w at e) many.0
              fragment (omega arith) (omega arith) fuel (omega arith) (omega arith))
    ]
