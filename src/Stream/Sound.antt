-- ===== src/Stream/Sound.antt =====
-- What every reader keeps: bytes are neither lost nor read twice, and the configuration stays.
mod Fragments
mod Lines
pub mod Records
use stellar_xdr_lens.Prelude.{
  ◌+◌, ◌^◌, ◌≤◌, ◌<◌, ◌≡◌, ◌∙◌, ◌≢◌, none, refl, Text, arith, length, ℕ, length-take, length-drop,
}
use stellar_xdr_lens.Stream.Parser.{StreamParser, read_full, read_full_error}
use stellar_xdr_lens.Errors.{Error, Result, err, ok, stuck, ok-injective}
use mathlib.Core.Path.{subst}

-- `q` is `p` after some reads.
pub record Reached (p q : StreamParser) : Type 0 where
  pub balance : q.total_bytes + length q.input ≡ p.total_bytes + length p.input
  pub shrinks : length q.input ≤ length p.input
  pub limit : q.max_record_size ≡ p.max_record_size
  pub framing : q.framing ≡ p.framing
  pub detected : q.detected ≡ p.detected
  pub chunks : q.chunk_index ≡ p.chunk_index
  pub closed : q.closed ≡ p.closed

-- No uint32 that the readers compare with the limit can wrap.
abbrev pub NoWrap : StreamParser → Type 0
NoWrap p = (p.max_record_size ≤ 2 ^ 31) × (length p.input < 2 ^ 32)

-- A reader's outcome: it returns, a record took a byte at least, and it is within the limit.
pub record IsSound (p : StreamParser) (out : Result Text × StreamParser) : Type 0 where
  pub reached : Reached p out.1
  pub settled : out.0 ≢ stuck
  pub progress : (t : Text) → out.0 ≡ ok t → length out.1.input < length p.input
  pub bounded : NoWrap p → (t : Text) → out.0 ≡ ok t → length t ≤ p.max_record_size

pub Reached-refl : (p : StreamParser) → Reached p p
Reached-refl p = record {
  balance = refl;
  shrinks = omega arith;
  limit = refl;
  framing = refl;
  detected = refl;
  chunks = refl;
  closed = refl;
}

pub Reached-trans : {p q r : StreamParser} → Reached p q → Reached q r → Reached p r
Reached-trans a b = record {
  balance = b.balance ∙ a.balance;
  shrinks = omega arith;
  limit = b.limit ∙ a.limit;
  framing = b.framing ∙ a.framing;
  detected = b.detected ∙ a.detected;
  chunks = b.chunks ∙ a.chunks;
  closed = b.closed ∙ a.closed;
}

pub read_full-Reached : (p : StreamParser) (n : ℕ) → Reached p (read_full n p).2
unfolding read_full
read_full-Reached p n = record {
  balance = omega (arith, length-take {0} n p.input, length-drop {0} n p.input);
  shrinks = omega (arith, length-drop {0} n p.input);
  limit = refl;
  framing = refl;
  detected = refl;
  chunks = refl;
  closed = refl;
}

room : (n : ℕ) (s : Text) → read_full_error n s ≡ none → n ≤ length s
unfolding read_full_error
room n s h = ground arith

-- A read without an error has taken the bytes it was asked for.
pub read_full_whole :
    (p : StreamParser) (n : ℕ)
    → (read_full n p).1 ≡ none
    → (length (read_full n p).0 ≡ n) × (length (read_full n p).2.input + n ≡ length p.input)
unfolding read_full
read_full_whole p n h = (
  omega (arith, room n p.input h, length-take {0} n p.input),
  omega (arith, room n p.input h, length-drop {0} n p.input),
)

-- An outcome that is an error.
pub error-IsSound : {p q : StreamParser} (e : Error) → Reached p q → IsSound p (err e, q)
error-IsSound e r = record {
  reached = r;
  settled = λ h. cc;
  progress = λ t h. cc;
  bounded = λ w t h. cc;
}

-- An outcome that is a record.
pub record-IsSound :
    {p q : StreamParser} (t : Text)
    → Reached p q
    → length q.input < length p.input
    → (NoWrap p → length t ≤ p.max_record_size)
    → IsSound p (ok t, q)
record-IsSound {p} {q} t r less fits = record {
  reached = r;
  settled = λ h. cc;
  progress = λ u h. less;
  bounded = λ w u h. subst (λ s. length s ≤ p.max_record_size) (ok-injective t u h) (fits w);
}

-- Sound behind a read is sound before it.
pub IsSound-after :
    {p q : StreamParser} {out : Result Text × StreamParser}
    → Reached p q
    → IsSound q out
    → IsSound p out
IsSound-after {p} {q} r s = record {
  reached = Reached-trans r s.reached;
  settled = s.settled;
  progress = λ t h. omega (arith, s.progress t h, r.shrinks);
  bounded = λ w t h. rw r.limit at (s.bounded (rw r.limit w.0, omega (arith, r.shrinks, w.1)) t h);
}
