-- ===== src/Wasm/Gives.antt =====
-- Properties of what a reading of wasm_disasm.go gives.
use stellar_xdr_lens.Wasm.Reader.{◌>>=◌, Reader, repeat, continue_with, done}
use stellar_xdr_lens.Prelude.{◌+◌, ◌∷◌, zero, suc, List, Text, ℕ, Each, each_none, each_more}
use stellar_xdr_lens.Errors.{Result, ok, Error, err, stuck}

-- A property of the value, if the result is one.
pub data Whenever {ℓ κ} {A : Type ℓ} (P : A → Type κ) : Result A → Type (ℓ ⊔ κ) where
  on_ok : {a : A} → P a → Whenever P (ok a)
  on_err : {e : Error} → Whenever P (err e)
  on_stuck : Whenever P stuck

pub Whenever-ok {ℓ κ} : {A : Type ℓ} {P : A → Type κ} {a : A} → Whenever P (ok a) → P a
Whenever-ok (on_ok p) = p

abbrev pub Gives {ℓ κ} : {A : Type ℓ} → (A → Type κ) → Reader A → Type (ℓ ⊔ κ)
Gives P m = (r : Text) → Whenever (λ p. P p.0) (m r)

module _ {ℓ κ ι} {A : Type ℓ} {B : Type κ} (P : B → Type ι) where
  continue_with-Whenever :
      (out : Result (A × Text)) {f : A → Reader B}
      → ((a : A) → Gives P (f a))
      → Whenever (λ p. P p.0) (continue_with out f)
  continue_with-Whenever (ok (a, rest)) h = h a rest
  continue_with-Whenever (err e) h = on_err
  continue_with-Whenever stuck h = on_stuck

  pub >>=-Gives : (m : Reader A) {f : A → Reader B} → ((a : A) → Gives P (f a)) → Gives P (m >>= f)
  >>=-Gives m h r = continue_with-Whenever (m r) h

module _ {ℓ κ} {A : Type ℓ} {P : A → Type κ} where
  pub next_items :
      (x : A) {out : Result (List A × Text)}
      → P x
      → Whenever (λ p. Each P p.0) out
      → Whenever (λ p. Each P p.0) (continue_with out (λ xs. done (x ∷ xs)))
  next_items x p (on_ok {a = (xs, rest)} h) = on_ok (each_more p h)
  next_items x p on_err = on_err
  next_items x p on_stuck = on_stuck

  next_item :
      {out : Result (A × Text)} {more : Reader (List A)}
      → Whenever (λ p. P p.0) out
      → Gives (Each P) more
      → Whenever (λ p. Each P p.0) (continue_with out (λ x. more >>= λ xs. done (x ∷ xs)))
  next_item (on_ok {a = (x, rest)} p) h = next_items x p (h rest)
  next_item on_err h = on_err
  next_item on_stuck h = on_stuck

  pub Gives-repeat :
      (n : ℕ) {item : ℕ → Reader A} (i : ℕ)
      → ((j : ℕ) → Gives P (item j))
      → Gives (Each P) (repeat n item i)
  unfolding repeat
  Gives-repeat zero i h r = on_ok each_none
  Gives-repeat (suc n) i h r = next_item (h i r) (Gives-repeat n (i + 1) h)
