-- ===== src/Wasm/Leaves.antt =====
-- What a reading of wasm_disasm.go leaves of its input.
use stellar_xdr_lens.Wasm.Reader.{◌>>=◌, Reader, done, read_byte, repeat, continue_with}
use stellar_xdr_lens.Wasm.Gives.{on_ok, on_err, on_stuck, Whenever}
use stellar_xdr_lens.Wasm.Leb.Groups.{a_number, cut_off, too_long, read_u32_leb128-Decodes, Decodes}
use stellar_xdr_lens.Prelude.{
  ◌+◌, ◌≡◌, ◌∙◌, ◌∷◌, ◌++◌, zero, suc, [], refl, Text, ℕ, Bool-cases, append_assoc, ap, codes, ltb,
  inl, inr, leb,
}
use stellar_xdr_lens.Wasm.Code.{
  read_all_locals, read_locals, read_operand, target, OperandKind, flatten, block_type, label, func,
  local, global, i32_const, no_operand,
}
use stellar_xdr_lens.Wasm.Leb.{i32_rounds, read_i32_leb128, read_u32_leb128, signed32, or_group}
use stellar_xdr_lens.Errors.{Result}

abbrev pub Suffix : Text → Text → Type 0
Suffix s r = (pre : Text) × (pre ++ s ≡ r)

pub Suffix_trans : {s t r : Text} → Suffix s t → Suffix t r → Suffix s r
Suffix_trans {s = s} (p, e) (q, f) = (q ++ p, append_assoc q p s ∙ ap (λ x. q ++ x) e ∙ f)

-- The reading leaves an end of its input.
abbrev pub Left {ℓ} : {A : Type ℓ} → Text → Result (A × Text) → Type ℓ
Left r out = Whenever (λ p. Suffix p.1 r) out

abbrev pub Leaves {ℓ} : {A : Type ℓ} → Reader A → Type ℓ
Leaves m = (r : Text) → Left r (m r)

pub Leaves-done {ℓ} : {A : Type ℓ} (a : A) → Leaves (done a)
Leaves-done a r = on_ok ([], refl)

Left-trans {ℓ} :
    {A : Type ℓ} {s r : Text} {out : Result (A × Text)} → Suffix s r → Left s out → Left r out
Left-trans h (on_ok k) = on_ok (Suffix_trans k h)
Left-trans h on_err = on_err
Left-trans h on_stuck = on_stuck

module _ {ℓ κ} {A : Type ℓ} {B : Type κ} where
  continue_with-Left :
      (r : Text) (f : A → Reader B) {out : Result (A × Text)}
      → Left r out
      → ((a : A) → Leaves (f a))
      → Left r (continue_with out f)
  continue_with-Left r f (on_ok {a = (a, rest)} h) hf = Left-trans h (hf a rest)
  continue_with-Left r f on_err hf = on_err
  continue_with-Left r f on_stuck hf = on_stuck

  pub >>=-Leaves :
      {m : Reader A} (f : A → Reader B) → Leaves m → ((a : A) → Leaves (f a)) → Leaves (m >>= f)
  >>=-Leaves f hm hf r = continue_with-Left r f (hm r) hf

pub Leaves-read_byte : Leaves read_byte
unfolding read_byte
Leaves-read_byte [] = on_err
Leaves-read_byte (b ∷ r) = on_ok (b ∷ [], refl)

Decodes-Left :
    {f : ℕ → ℕ} {n : ℕ} {r : Text} {out : Result (ℕ × Text)} → Decodes f n r out → Left r out
Decodes-Left (a_number {gs = gs} rest k le q) = on_ok (gs, refl)
Decodes-Left (cut_off k lt) = on_err
Decodes-Left (too_long rest k q) = on_err

pub Leaves-read_u32_leb128 : Leaves read_u32_leb128
Leaves-read_u32_leb128 r = Decodes-Left (read_u32_leb128-Decodes r)

Leaves-i32_rounds : (n result s : ℕ) → Leaves (i32_rounds n result s)
unfolding i32_rounds
Leaves-i32_rounds zero result s r = on_stuck
Leaves-i32_rounds (suc n) result s [] = on_err
Leaves-i32_rounds (suc n) result s (b ∷ r) =
    Left-trans (b ∷ [], refl)
      (elim (Bool-cases (ltb b 128)) [
        | inl e ↦ rw e (on_ok ([], refl))
        | inr e ↦ elim (Bool-cases (leb 35 (s + 7))) [
          | inl f ↦ rw (e, f) on_err
          | inr f ↦ rw (e, f) (Leaves-i32_rounds n (or_group result b s) (s + 7) r)
        ]
      ])

Leaves-target : (head : Text) → Leaves (target head)
unfolding target
Leaves-target head = >>=-Leaves _ Leaves-read_u32_leb128 (λ n. Leaves-done _)

Leaves-read_i32_leb128 : Leaves read_i32_leb128
unfolding read_i32_leb128
Leaves-read_i32_leb128 = >>=-Leaves _ (Leaves-i32_rounds 5 0 0) (λ w. Leaves-done (signed32 w))

pub Leaves-read_operand : (k : OperandKind) → Leaves (read_operand k)
unfolding read_operand
Leaves-read_operand block_type = >>=-Leaves _ Leaves-read_byte (λ bt. Leaves-done _)
Leaves-read_operand label = Leaves-target (codes "label:")
Leaves-read_operand func = Leaves-target (codes "func:")
Leaves-read_operand local = Leaves-target (codes "local:")
Leaves-read_operand global = Leaves-target (codes "global:")
Leaves-read_operand i32_const = >>=-Leaves _ Leaves-read_i32_leb128 (λ v. Leaves-done _)
Leaves-read_operand no_operand = Leaves-done []

Leaves-repeat {ℓ} :
    {A : Type ℓ} (n : ℕ) {item : ℕ → Reader A} (i : ℕ)
    → ((j : ℕ) → Leaves (item j))
    → Leaves (repeat n item i)
unfolding repeat
Leaves-repeat zero i h = Leaves-done []
Leaves-repeat (suc n) i h =
    >>=-Leaves _ (h i) (λ x. >>=-Leaves _ (Leaves-repeat n (i + 1) h) (λ xs. Leaves-done (x ∷ xs)))

Leaves-read_locals : Leaves read_locals
unfolding read_locals
Leaves-read_locals =
    >>=-Leaves _ Leaves-read_u32_leb128 (λ n. >>=-Leaves _ Leaves-read_byte (λ vt. Leaves-done _))

pub Leaves-read_all_locals : Leaves read_all_locals
unfolding read_all_locals
Leaves-read_all_locals = >>=-Leaves _ Leaves-read_u32_leb128 (λ n.
    >>=-Leaves _ (Leaves-repeat n 0 (λ _. Leaves-read_locals)) (λ runs. Leaves-done (flatten runs)))
