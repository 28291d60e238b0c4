-- ===== src/Stream/Fragments.antt =====
-- The rounds of readRecordMarking on fragments that the writer wrote.
use stellar_xdr_lens.Prelude.{
  ℕ, ◌+◌, ◌≤◌, ◌<◌, ◌^◌, ◌≡◌, refl, ap, ◌∙◌, none, ◌++◌, Text, length, arith, ◌%◌, if◌then◌else◌,
  append_assoc, ltb-false, suc, leb, eq_false, leb-true, take, drop, leb-false, length-take,
  length-append, take-append-drop, zero, length-drop,
}
use stellar_xdr_lens.Encoding.Big.{put_uint32_be, uint32_be-put, length-put_uint32_be}
use stellar_xdr_lens.Errors.{ok, Result}
use stellar_xdr_lens.Stream.Parser.{StreamParser, read_full}
use stellar_xdr_lens.Stream.Read.{fragments, fragment_header, fragment_data}
use stellar_xdr_lens.Stream.ReadFull.{advance, read_full-prefix}
use stellar_xdr_lens.Stream.Write.{set_last, write_fragments}
use mathlib.Core.Path.{ap₂}
use native.Mathlib.Decide.{dec_le, dec_lt}

pub two_reads :
    (p : StreamParser) (h n : ℕ) (body rest : Text)
    → p.input ≡ put_uint32_be h ++ (body ++ rest)
    → length body ≡ n
    → (read_full 4 p ≡ (put_uint32_be h, none, advance p (body ++ rest) 4))
      × (read_full n (advance p (body ++ rest) 4) ≡ (body, none, advance p rest (4 + n)))
two_reads p h n body rest e len = (
  read_full-prefix p 4 (put_uint32_be h) (body ++ rest) e (length-put_uint32_be h),
  read_full-prefix (advance p (body ++ rest) 4) n body rest refl len
      ∙ ap (λ t. (body, none, record p { input = rest; total_bytes = t })) (omega arith),
)

-- One fragment: its data is kept, and the loop ends with the last one.
fragment_round :
    (p : StreamParser) (fuel h : ℕ) (body rest kept : Text) (total : ℕ)
    → p.input ≡ put_uint32_be h ++ (body ++ rest)
    → h < 2 ^ 32
    → length body ≡ h % 2 ^ 31
    → 0 < length body
    → total + length body < 2 ^ 32
    → total + length body ≤ p.max_record_size
    → fragments (suc fuel) kept total p ≡ (
        if leb (2 ^ 31) h
        then (ok (kept ++ body), advance p rest (4 + length body))
        else fragments fuel (kept ++ body) (total + length body) (advance p rest (4 + length body)))
fragment_round p fuel h body rest kept total e small len pos word fits =
    let n = length body in
    let (first, second) = two_reads p h n body rest e refl in
    let whole : (total + n) % 2 ^ 32 ≡ total + n = omega arith in
    unfold fragments in
    rw first (
      unfold fragment_header in
      rw
        (
          uint32_be-put h small,
          ← len,
          whole,
          eq_false n 0 (omega arith),
          ltb-false p.max_record_size (total + n) fits,
          second,
        )
        (unfold fragment_data in refl))

-- A record that is one fragment, the last.
pub last_round :
    (p : StreamParser) (fuel : ℕ) (body rest kept : Text)
    → p.input ≡ put_uint32_be (set_last (length body)) ++ (body ++ rest)
    → 0 < length body
    → length body < 2 ^ 31
    → length kept + length body < 2 ^ 32
    → length kept + length body ≤ p.max_record_size
    → fragments (suc fuel) kept (length kept) p
      ≡ (ok (kept ++ body), advance p rest (4 + length body))
unfolding set_last
last_round p fuel body rest kept e pos small word fits =
    let n = length body in
    let high : set_last n ≡ 2 ^ 31 + n = ground arith in
    let round =
      fragment_round p fuel (2 ^ 31 + n) body rest kept (length kept) (rw high at e) (omega arith)
        (omega arith) pos word fits in
    round ∙ rw (leb-true (2 ^ 31) (2 ^ 31 + n) (omega arith))

write_fragments-last :
    (wf size : ℕ) (rec : Text)
    → 0 < length rec
    → length rec ≤ size
    → write_fragments (suc wf) size rec ≡ put_uint32_be (set_last (length rec)) ++ rec
write_fragments-last wf size rec pos le =
    unfold write_fragments in
    rw (eq_false (length rec) 0 (omega arith), leb-true (length rec) size le)

write_fragments-more :
    (wf size : ℕ) (rec : Text)
    → size < length rec
    → write_fragments (suc wf) size rec
      ≡ put_uint32_be size ++ (take size rec ++ write_fragments wf size (drop size rec))
write_fragments-more wf size rec lt =
    unfold write_fragments in
    rw (eq_false (length rec) 0 (omega arith), leb-false (length rec) size lt)

-- Two descriptions of one outcome.
pub same_outcome :
    (p : StreamParser) (rest : Text) {a b : Text} {n m : ℕ}
    → a ≡ b
    → n ≡ m
    → ◌≡◌ {A = Result Text × StreamParser}
        (ok a, record p { input = rest; total_bytes = n })
        (ok b, record p { input = rest; total_bytes = m })
same_outcome p rest e f = ap₂ (λ t k. (ok t, record p { input = rest; total_bytes = k })) e f

-- The goal of the induction: the fragments of a record are put together behind what is kept of it.
abbrev pub Reads : ℕ → ℕ → ℕ → Text → Text → Text → StreamParser → Type 0
Reads wf rf size rec rest kept p =
    fragments rf kept (length kept) p
    ≡ (ok (kept ++ rec), advance p rest (length (write_fragments wf size rec)))

last_fragment :
    (wf rf size : ℕ) (rec rest kept : Text) (p : StreamParser)
    → p.input ≡ write_fragments (suc wf) size rec ++ rest
    → length rec ≤ size
    → size < 2 ^ 31
    → 0 < length rec
    → length kept + length rec < 2 ^ 32
    → length kept + length rec ≤ p.max_record_size
    → Reads (suc wf) (suc rf) size rec rest kept p
last_fragment wf rf size rec rest kept p e le small pos word fits =
    let header = put_uint32_be (set_last (length rec)) in
    let w = write_fragments-last wf size rec pos le in
    let e' = e ∙ ap (λ t. t ++ rest) w ∙ append_assoc header rec rest in
    last_round p rf rec rest kept e' pos (omega arith) word fits
    ∙ same_outcome p rest refl (
        omega (
          arith,
          ap length w,
          length-append {0} header rec,
          length-put_uint32_be (set_last (length rec)),
        ))

first_fragment :
    (wf rf size : ℕ) (rec rest kept : Text) (p : StreamParser)
    → p.input ≡ write_fragments (suc wf) size rec ++ rest
    → size < length rec
    → 0 < size
    → size < 2 ^ 31
    → length kept + length rec < 2 ^ 32
    → length kept + length rec ≤ p.max_record_size
    → Reads wf rf size
        (drop size rec)
        rest
        (kept ++ take size rec)
        (advance p (write_fragments wf size (drop size rec) ++ rest) (4 + length (take size rec)))
    → Reads (suc wf) (suc rf) size rec rest kept p
first_fragment wf rf size rec rest kept p e lt hs small word fits ih =
    let first = take size rec in
    let others = drop size rec in
    let tail = write_fragments wf size others in
    let header = put_uint32_be size in
    let n : length first ≡ size = omega (arith, length-take {0} size rec) in
    let w = write_fragments-more wf size rec lt in
    let e' : p.input ≡ header ++ (first ++ (tail ++ rest)) =
      e
      ∙ ap (λ t. t ++ rest) w
      ∙ append_assoc header (first ++ tail) rest
      ∙ ap (λ t. header ++ t) (append_assoc first tail rest) in
    let round =
      fragment_round p rf size first (tail ++ rest) kept (length kept) e' (omega arith)
        (omega arith) (omega arith) (omega arith) (omega arith) in
    rw (round, leb-false (2 ^ 31) size small, ← length-append kept first)
      (ih
        ∙ same_outcome p rest
            (append_assoc kept first others ∙ ap (λ t. kept ++ t) (take-append-drop size rec))
            (omega (
              arith,
              ap length w,
              length-append {0} header (first ++ tail),
              length-append {0} first tail,
              length-put_uint32_be size,
            )))

pub fragments-write :
    (wf rf size : ℕ) (rec rest kept : Text) (p : StreamParser)
    → p.input ≡ write_fragments wf size rec ++ rest
    → 0 < size
    → size < 2 ^ 31
    → 0 < length rec
    → length rec ≤ wf
    → length rec ≤ rf
    → length kept + length rec < 2 ^ 32
    → length kept + length rec ≤ p.max_record_size
    → Reads wf rf size rec rest kept p
fragments-write zero rf size rec rest kept p e hs small pos wf_le rf_le word fits =
    absurd (omega arith)
fragments-write (suc wf) zero size rec rest kept p e hs small pos wf_le rf_le word fits =
    absurd (omega arith)
fragments-write (suc wf) (suc rf) size rec rest kept p e hs small pos wf_le rf_le word fits =
    elim (dec_le (length rec) size) [
      | yes le ↦ last_fragment wf rf size rec rest kept p e le small pos word fits
      | no gt ↦
          let n : length (take size rec) ≡ size = omega (arith, length-take {0} size rec) in
          let m = length-drop size rec in
          let k = length-append kept (take size rec) in
          let after =
            advance p (write_fragments wf size (drop size rec) ++ rest)
              (4 + length (take size rec)) in
          first_fragment wf rf size rec rest kept p e (omega arith) hs small word fits (
            fragments-write wf rf size (drop size rec) rest (kept ++ take size rec) after refl hs
              small (omega arith) (omega arith) (omega arith) (omega arith) (omega arith))
    ]

-- A record is no longer than what is written for it.
pub length-le-write_fragments :
    (wf size : ℕ) (rec : Text)
    → 0 < size
    → length rec ≤ wf
    → length rec ≤ length (write_fragments wf size rec)
length-le-write_fragments zero size rec hs le = omega arith
length-le-write_fragments (suc wf) size rec hs le = elim (dec_le (length rec) size) [
  | yes one ↦ elim (dec_lt 0 (length rec)) [
    | yes pos ↦ omega (
      arith,
      ap length (write_fragments-last wf size rec pos one),
      length-append {0} (put_uint32_be (set_last (length rec))) rec,
    )
    | no none_left ↦ omega arith
  ]
  | no many ↦
      let others = drop size rec in
      let tail = write_fragments wf size others in
      omega (
        arith,
        ap length (write_fragments-more wf size rec (omega arith)),
        length-append {0} (put_uint32_be size) (take size rec ++ tail),
        length-append {0} (take size rec) tail,
        length-take {0} size rec,
        length-drop {0} size rec,
        length-le-write_fragments wf size others hs (omega (arith, length-drop {0} size rec)),
      )
]
