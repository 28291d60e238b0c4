-- ===== src/Stream/Session.antt =====
-- Next and Drain on any stream.
use stellar_xdr_lens.Prelude.{
  ◌+◌, ◌≤◌, ◌<◌, ◌≡◌, ◌∙◌, ◌≢◌, ◌&&◌, zero, suc, refl, Bool-cases, length, ℕ, Text, arith, inl, inr,
}
use stellar_xdr_lens.Stream.Next.{
  drain, drain_loop, drain_step, ensure_detected, next, settle, with_detected, Drained,
  after_detection, read_record,
}
use stellar_xdr_lens.Stream.Parser.{
  StreamParser, detect_framing, StreamFraming, is_auto, effective_framing,
}
use stellar_xdr_lens.Errors.{Result, stuck, ok, err}
use stellar_xdr_lens.Stream.Sound.{IsSound}
use stellar_xdr_lens.Stream.Sound.Records.{read_record-IsSound}

-- No byte is lost or counted twice, and the limit stays as it was configured.
abbrev pub Balanced : StreamParser → StreamParser → Type 0
Balanced p q =
    (q.total_bytes + length q.input ≡ p.total_bytes + length p.input)
    × (q.max_record_size ≡ p.max_record_size)

-- A record takes a byte at least and is counted once; an error is not counted; the fuel of the
-- loops is enough.
abbrev pub Answered : StreamParser → Result Text × StreamParser → Type 0
Answered p (ok t, q) =
    Balanced p q × (length q.input < length p.input) × (q.chunk_index ≡ p.chunk_index + 1)
Answered p (err e, q) =
    Balanced p q × (length q.input ≤ length p.input) × (q.chunk_index ≡ p.chunk_index)
Answered p (stuck, q) = ⊥

settle_answers :
    (p : StreamParser) (out : Result Text × StreamParser) → IsSound p out → Answered p (settle out)
unfolding settle
settle_answers p (ok t, q) s =
    ((s.reached.balance, s.reached.limit), s.progress t refl, omega (arith, s.reached.chunks))
settle_answers p (err e, q) s = ground (arith, s.reached)
settle_answers p (stuck, q) s = absurd (s.settled refl)

-- What a detection leaves.
abbrev Detected : StreamParser → Result StreamParser → Type 0
Detected p (ok q) = (f : StreamFraming) × (q ≡ record p { detected = f })
Detected p (err e) = Unit {0}
Detected p stuck = ⊥

detect_framing-ne-stuck : (p : StreamParser) → detect_framing p ≢ stuck
unfolding detect_framing
detect_framing-ne-stuck p h = ground arith

with_detected_detects :
    (p : StreamParser) (r : Result StreamFraming) → r ≢ stuck → Detected p (with_detected p r)
unfolding with_detected
with_detected_detects p (ok f) h = (f, refl)
with_detected_detects p (err e) h = tt
with_detected_detects p stuck h = h refl

ensure_detected_detects : (p : StreamParser) → Detected p (ensure_detected p)
unfolding ensure_detected
ensure_detected_detects p = elim (Bool-cases (is_auto p.framing && is_auto p.detected)) [
  | inl auto ↦ rw auto (with_detected_detects p (detect_framing p) (detect_framing-ne-stuck p))
  | inr known ↦ rw known (p.detected, refl)
]

-- The detected framing is none of the fields that an answer speaks of.
Answered-detected :
    (p : StreamParser) (f : StreamFraming) (out : Result Text × StreamParser)
    → Answered (record p { detected = f }) out
    → Answered p out
Answered-detected p f (ok t, q) a = a
Answered-detected p f (err e, q) a = a
Answered-detected p f (stuck, q) a = a

after_detection_answers :
    (p : StreamParser) (r : Result StreamParser) → Detected p r → Answered p (after_detection p r)
unfolding after_detection
after_detection_answers p (ok q) (f, e) =
    let q' = record p { detected = f } in
    let out = read_record (effective_framing q') q' in
    rw e (
      Answered-detected p f (settle out)
        (settle_answers q' out (read_record-IsSound (effective_framing q') q')))
after_detection_answers p (err e) d = ((refl, refl), omega arith, refl)
after_detection_answers p stuck d = d

-- On every stream, Next returns a record or an error. The bytes counted and the bytes left make up
-- the bytes that there were, the size limit stays, a record takes a byte at least and raises the
-- record count by one, and an error leaves the count.
pub next_answers : (p : StreamParser) → Answered p (next p)
unfolding next
next_answers p = elim (Bool-cases p.closed) [
  | inl shut ↦ simp shut ((refl, refl), omega arith, refl)
  | inr open_ ↦
      simp open_ (after_detection_answers p (ensure_detected p) (ensure_detected_detects p))
]

-- The outcome of Drain: it ends, the records that it counts are those that Next counted, and the bytes
-- add up.
abbrev pub DrainedWell : StreamParser → ℕ → Drained → Type 0
DrainedWell p n d =
    (d.outcome ≢ stuck) × Balanced p d.parser × (d.parser.chunk_index + n ≡ p.chunk_index + d.count)

drain_step_well :
    (p : StreamParser) (n : ℕ) (more : ℕ → StreamParser → Drained)
    (out : Result Text × StreamParser)
    → Answered p out
    → ((q : StreamParser)
        → length q.input < length p.input
        → DrainedWell q (n + 1) (more (n + 1) q))
    → DrainedWell p n (drain_step more n out)
unfolding drain_step
drain_step_well p n more (ok t, q) a rest =
    let (ends, balanced, counted) = rest q a.1 in
    (ends, (omega (arith, balanced, a), balanced.1 ∙ a.0.1), omega (arith, counted, a))
drain_step_well p n more (err e, q) a rest = ((λ h. ground arith), a.0, omega (arith, a))
drain_step_well p n more (stuck, q) a rest = absurd a

drain_loop_well :
    (fuel n : ℕ) (p : StreamParser) → length p.input < fuel → DrainedWell p n (drain_loop fuel n p)
unfolding drain_loop
drain_loop_well zero n p enough = absurd (omega arith)
drain_loop_well (suc fuel) n p enough =
    drain_step_well p n (drain_loop fuel) (next p) (next_answers p)
      λ q less. drain_loop_well fuel (n + 1) q (omega arith)

-- On every stream, Drain ends, and its count is the number of records by which Next has advanced.
pub drain_well : (p : StreamParser) → DrainedWell p 0 (drain p)
unfolding drain
drain_well p = drain_loop_well (suc (length p.input)) 0 p (omega arith)
