-- ===== src/Stdin/Framed.antt =====
-- Framing: the probe is made once, and an unknown framing is an error.
use stellar_xdr_lens.Stdin.{framing_unknown, framing_error, is_empty_input}
use stellar_xdr_lens.Prelude.{
  ◌∷◌, [], ◌≡◌, true, none, some, refl, Option, Bool, ap, if◌then◌else◌, false, Bool-cases, inl,
  inr,
}
use stellar_xdr_lens.Errors.{Error, empty_input}
use stellar_xdr_lens.Stdin.{framing_of, probe, StdinPipe, framing_unknown}

settled :
    (b : Bool) (p q : StdinPipe)
    → p.probed ≡ b
    → q.probed ≡ true
    → (if b then p else q).probed ≡ true
settled true p q e h = e
settled false p q e h = h

probe-probed : (p : StdinPipe) → (probe p).probed ≡ true
unfolding probe
probe-probed p = settled p.probed p _ refl refl

probe_done : (b : Bool) (p q : StdinPipe) → b ≡ true → (if b then p else q) ≡ p
probe_done true p q h = refl
probe_done false p q h = cc h

-- The probe, once it has been made, is not made again.
probe_idem : (p : StdinPipe) → probe (probe p) ≡ probe p
probe_idem p = unfold probe in probe_done (probe p).probed (probe p) _ (probe-probed p)

-- A second call of Framing gives the same answer and leaves the pipe as it is.
pub framing_of_idem : (p : StdinPipe) → framing_of (framing_of p).2 ≡ framing_of p
unfolding framing_of
framing_of_idem p = ap (λ q. (q.pipe_kind, framing_error q.pipe_kind q.probe_err, q)) (probe_idem p)

framing_error_unknown :
    (e : Option Error) → (e' : Error) × (framing_error framing_unknown e ≡ some e')
unfolding framing_error
framing_error_unknown none = (empty_input ∷ [], refl)
framing_error_unknown (some e) = elim (Bool-cases (is_empty_input e)) [
  | inl h ↦ (empty_input ∷ [], rw h refl)
  | inr h ↦ (e, rw h refl)
]

-- An unknown framing comes with an error.
pub unknown_framing :
    (p : StdinPipe) → (framing_of p).0 ≡ framing_unknown → (e : Error) × ((framing_of p).1 ≡ some e)
unfolding framing_of
unknown_framing p k = rw k (framing_error_unknown (probe p).probe_err)
