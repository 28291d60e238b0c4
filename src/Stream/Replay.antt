-- ===== src/Stream/Replay.antt =====
-- A whole stream of written records, drained.
use stellar_xdr_lens.Prelude.{
  ◌+◌, ◌^◌, ◌≤◌, ◌<◌, ◌≡◌, ◌∷◌, ◌++◌, suc, [], true, false, refl, List, Text, ℕ, length, All, zero,
  arith, ◌∙◌, ap, length-append,
}
use stellar_xdr_lens.Stream.Next.{
  drain_loop, next, ensure_detected, after_detection, read_record, settle, drain_step, drain,
  Drained,
}
use stellar_xdr_lens.Stream.Parser.{
  StreamParser, is_auto, effective_framing, framing_record_marking,
}
use stellar_xdr_lens.Stream.ReadFull.{advance, read_full_nothing}
use stellar_xdr_lens.Stream.Write.{write_record_marking}
use stellar_xdr_lens.Errors.{err, ok, eof, is_eof, is_eof_sentinel}
use stellar_xdr_lens.Stream.Read.{read_record_marking, fragments, fragment_header, header_error}
use stellar_xdr_lens.Stream.RoundTrip.{read_record_marking-write, write_record_marking-pos}
use mathlib.Core.Path.{subst}
use native.Mathlib.Nat.{zero-add}

-- A record with the fragment size that it is written with.
abbrev pub Item : Type 0
Item = Text × ℕ

pub marked : List Item → Text
marked [] = []
marked ((t, size) ∷ items) = write_record_marking t size ++ marked items

-- The records that the reader of a configured limit accepts.
abbrev pub FitsMarked : ℕ → Item → Type 0
FitsMarked max (t, size) = (length t ≤ max) × (length t < 2 ^ 31) × (size < 2 ^ 31)

-- The parser behind a record.
abbrev counted : StreamParser → Text → ℕ → StreamParser
counted p rest n = record (advance p rest n) { chunk_index = p.chunk_index + 1 }

pub next_configured :
    (p : StreamParser)
    → p.closed ≡ false
    → is_auto p.framing ≡ false
    → next p ≡ settle (read_record p.framing p)
unfolding next ensure_detected after_detection effective_framing
next_configured p open_ known = simp (open_, known)

drain_item :
    (fuel n : ℕ) (p : StreamParser) (t rest : Text) (k : ℕ)
    → p.closed ≡ false
    → is_auto p.framing ≡ false
    → read_record p.framing p ≡ (ok t, advance p rest k)
    → drain_loop (suc fuel) n p ≡ drain_loop fuel (n + 1) (counted p rest k)
unfolding drain_loop
drain_item fuel n p t rest k open_ known read =
    rw (next_configured p open_ known, read) (unfold settle drain_step in refl)

-- A clean end of the input.
drain_end :
    (fuel n : ℕ) (p q : StreamParser)
    → p.closed ≡ false
    → is_auto p.framing ≡ false
    → read_record p.framing p ≡ (err (eof ∷ []), q)
    → drain_loop (suc fuel) n p
      ≡ record { count = n; outcome = ok tt; parser = record q { closed = true } }
unfolding drain_loop
drain_end fuel n p q open_ known read =
    rw (next_configured p open_ known, read)
      (unfold settle drain_step is_eof is_eof_sentinel in refl)

-- Every record takes a byte at least.
length-le-marked :
    (max : ℕ) (items : List Item)
    → All (FitsMarked max) items
    → length items ≤ length (marked items)
unfolding marked
length-le-marked max [] fit = omega arith
length-le-marked max ((t, size) ∷ items) (fits, rest_fit) = omega (
  arith,
  write_record_marking-pos t size fits.1,
  length-append {0} (write_record_marking t size) (marked items),
  length-le-marked max items rest_fit,
)

marked_end :
    (p : StreamParser)
    → p.input ≡ []
    → read_record framing_record_marking p ≡ (err (eof ∷ []), record p { input = [] })
unfolding read_record read_record_marking fragments
marked_end p e =
    rw (read_full_nothing p 4 e (omega arith))
      (unfold fragment_header header_error is_eof_sentinel in refl)

-- What a drained parser shows: every record counted, a clean end, no input left.
abbrev pub Drains : ℕ → Drained → Type 0
Drains n d = (d.count ≡ n) × (d.outcome ≡ ok tt) × (d.parser.input ≡ [])

Drains-suc : (n k : ℕ) (d : Drained) → Drains (n + 1 + k) d → Drains (n + suc k) d
Drains-suc n k d h = (omega (arith, h), h.1, h.2)

marked_loop :
    (items : List Item) (fuel n : ℕ) (p : StreamParser)
    → length items < fuel
    → p.closed ≡ false
    → p.framing ≡ framing_record_marking
    → p.input ≡ marked items
    → All (FitsMarked p.max_record_size) items
    → Drains (n + length items) (drain_loop fuel n p)
marked_loop items zero n p enough open_ framing e fit = absurd (omega arith)
marked_loop [] (suc fuel) n p enough open_ framing e fit =
    let known : is_auto p.framing ≡ false = unfold is_auto in rw framing in
    let done : read_record p.framing p ≡ (err (eof ∷ []), record p { input = [] }) =
      ap (λ f. read_record f p) framing ∙ marked_end p (unfold marked in e) in
    rw (drain_end fuel n p (record p { input = [] }) open_ known done) (omega arith, refl, refl)
marked_loop ((t, size) ∷ items) (suc fuel) n p enough open_ framing e (fits, rest_fit) =
    let known : is_auto p.framing ≡ false = unfold is_auto in rw framing in
    let rest = marked items in
    let k = length (write_record_marking t size) in
    let read : read_record p.framing p ≡ (ok t, advance p rest k) =
      ap (λ f. read_record f p) framing
      ∙ (unfold read_record in
          read_record_marking-write p t rest size (unfold marked in e) fits.0 fits.1 fits.2) in
    rw (drain_item fuel n p t rest k open_ known read) (
      Drains-suc n (length items) (drain_loop fuel (n + 1) (counted p rest k)) (
        marked_loop items fuel (n + 1) (counted p rest k) (omega arith) open_ framing refl
          rest_fit))

-- A parser that is open and whose framing is set to record marking, not detected, drains whole a stream
-- of records that were written with record marking, each with a fragment size of its own, if every
-- record is within the parser's limit and every record and fragment size is below 2^31: every record is
-- counted, no input is left, and it ends without an error.
pub drain-marked :
    (items : List Item) (p : StreamParser)
    → p.closed ≡ false
    → p.framing ≡ framing_record_marking
    → p.input ≡ marked items
    → All (FitsMarked p.max_record_size) items
    → Drains (length items) (drain p)
drain-marked items p open_ framing e fit =
    unfold drain in
    subst (λ n. Drains n (drain_loop (suc (length p.input)) 0 p)) (zero-add (length items))
      (marked_loop items (suc (length p.input)) 0 p
        (omega (arith, length-le-marked p.max_record_size items fit, ap length e)) open_ framing e
        fit)
