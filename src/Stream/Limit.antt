-- ===== src/Stream/Limit.antt =====
-- Next and the size limit of the stream parser.
use stellar_xdr_lens.Prelude.{◌≤◌, ◌&&◌, refl, ℕ, Text, Bool-cases, inl, length, inr}
use stellar_xdr_lens.Stream.Next.{
  after_detection, next, settle, ensure_detected, with_detected, read_record,
}
use stellar_xdr_lens.Stream.Parser.{
  StreamParser, StreamFraming, effective_framing, is_auto, detect_framing,
}
use stellar_xdr_lens.Errors.{Result, ok, err, stuck}
use stellar_xdr_lens.Stream.Sound.{NoWrap, IsSound}
use stellar_xdr_lens.Stream.Sound.Records.{read_record-IsSound}

-- A record, where there is one, is within a limit.
abbrev pub Limited : ℕ → Result Text × StreamParser → Type 0
Limited max (ok t, q) = length t ≤ max
Limited max (err e, q) = Unit {0}
Limited max (stuck, q) = Unit {0}

sound-Limited :
    (p : StreamParser) (out : Result Text × StreamParser)
    → NoWrap p
    → IsSound p out
    → Limited p.max_record_size out
sound-Limited p (ok t, q) w s = s.bounded w t refl
sound-Limited p (err e, q) w s = tt
sound-Limited p (stuck, q) w s = tt

settle-Limited :
    (max : ℕ) (out : Result Text × StreamParser) → Limited max out → Limited max (settle out)
unfolding settle
settle-Limited max (ok t, q) h = h
settle-Limited max (err e, q) h = tt
settle-Limited max (stuck, q) h = tt

read-Limited :
    (p : StreamParser) (f : StreamFraming)
    → NoWrap p
    → Limited p.max_record_size (settle (read_record f p))
read-Limited p f w =
    settle-Limited p.max_record_size (read_record f p)
      (sound-Limited p (read_record f p) w (read_record-IsSound f p))

detected-Limited :
    (p : StreamParser) (found : Result StreamFraming)
    → NoWrap p
    → Limited p.max_record_size (after_detection p (with_detected p found))
unfolding after_detection with_detected
detected-Limited p (ok f) w =
    let q = record p { detected = f } in read-Limited q (effective_framing q) w
detected-Limited p (err e) w = tt
detected-Limited p stuck w = tt

-- A record that Next returns is no longer than the configured limit, if that limit is at most 2^31 and
-- less than 2^32 bytes of input are left.
pub next-Limited : (p : StreamParser) → NoWrap p → Limited p.max_record_size (next p)
unfolding next ensure_detected
next-Limited p w = elim (Bool-cases p.closed) [
  | inl shut ↦ simp shut tt
  | inr open_ ↦ elim (Bool-cases (is_auto p.framing && is_auto p.detected)) [
    | inl auto ↦ simp (open_, auto) (detected-Limited p (detect_framing p) w)
    | inr known ↦
        simp (open_, known) (unfold after_detection in read-Limited p (effective_framing p) w)
  ]
]
