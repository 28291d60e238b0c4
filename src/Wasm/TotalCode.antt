-- ===== src/Wasm/TotalCode.antt =====
-- The disassembly of a function body ends.

use stellar_xdr_lens.Prelude.{
  ◌+◌, ◌*◌, ◌≤◌, ◌≡◌, ◌∷◌, zero, suc, [], refl, ℕ, Text, length, arith, leb-true, Bool-cases, ltb,
  inl, inr, leb-false, codes, List,
}
use stellar_xdr_lens.Wasm.Code.{
  read_instruction, read_instructions, read_operand, target, OperandKind, block_type,
  disassemble_function_body, read_code, read_locals, curr_offset, label, flatten, func, local,
  global, i32_const, no_operand, read_all_locals,
}
use stellar_xdr_lens.Wasm.Leb.{i32_rounds, read_i32_leb128, or_group, signed32}
use stellar_xdr_lens.Wasm.Takes.{
  Takes, >>=-Takes, Taken, Takes-read_byte, not_taken, taken, Takes-done, Takes-read_u32_leb128,
  Taken-weaken, continue_with-Taken, Takes-repeat, Takes-less,
}

i32_rounds-Taken :
    (n result s : ℕ) (r : Text) → s + 7 * suc n ≡ 35 → Taken 1 r (i32_rounds (suc n) result s r)
unfolding i32_rounds
i32_rounds-Taken n result s [] h = not_taken
i32_rounds-Taken zero result s (b ∷ r) h =
    rw (leb-true 35 (s + 7) (omega arith)) (elim (Bool-cases (ltb b 128)) [
      | inl e ↦ rw e (taken {rest = r} (omega arith))
      | inr e ↦ rw e not_taken
    ])
i32_rounds-Taken (suc n) result s (b ∷ r) h =
    rw (leb-false 35 (s + 7) (omega arith)) (elim (Bool-cases (ltb b 128)) [
      | inl e ↦ rw e (taken {rest = r} (omega arith))
      | inr e ↦ rw e (
          Taken-weaken {s = r} (omega arith)
            (i32_rounds-Taken n (or_group result b s) (s + 7) r (omega arith)))
    ])

Takes-target : (head : Text) → Takes 0 (target head)
unfolding target
Takes-target head = Takes-less (>>=-Takes 1 0 Takes-read_u32_leb128 (λ n. Takes-done _))

Takes-read_i32_leb128 : Takes 1 read_i32_leb128
unfolding read_i32_leb128
Takes-read_i32_leb128 =
    >>=-Takes 1 0 (λ r. i32_rounds-Taken 4 0 0 r refl) (λ w. Takes-done (signed32 w))

Takes-read_operand : (k : OperandKind) → Takes 0 (read_operand k)
unfolding read_operand
Takes-read_operand block_type = Takes-less (>>=-Takes 1 0 Takes-read_byte (λ bt. Takes-done _))
Takes-read_operand label = Takes-target (codes "label:")
Takes-read_operand func = Takes-target (codes "func:")
Takes-read_operand local = Takes-target (codes "local:")
Takes-read_operand global = Takes-target (codes "global:")
Takes-read_operand i32_const = Takes-less (>>=-Takes 1 0 Takes-read_i32_leb128 (λ v. Takes-done _))
Takes-read_operand no_operand = Takes-done []

Takes-read_instruction : (at : ℕ) → Takes 1 (read_instruction at)
unfolding read_instruction
Takes-read_instruction at =
    >>=-Takes 1 0 Takes-read_byte (λ op. >>=-Takes 0 0 (Takes-read_operand _) (λ o. Takes-done _))

read_instructions-Taken :
    (fuel : ℕ) (body_bytes : Text) (offset : ℕ) (r : Text)
    → length r ≤ fuel
    → Taken 0 r (read_instructions fuel body_bytes offset r)
unfolding read_instructions
read_instructions-Taken fuel body_bytes offset [] h = taken (omega arith)
read_instructions-Taken zero body_bytes offset (b ∷ r) h = absurd (omega arith)
read_instructions-Taken (suc fuel) body_bytes offset (b ∷ r) h = Taken-weaken (omega arith) (
    continue_with-Taken (Takes-read_instruction (curr_offset body_bytes offset (b ∷ r)) (b ∷ r))
      (λ inst rest lt.
        continue_with-Taken {k = 0}
          (read_instructions-Taken fuel body_bytes offset rest (omega arith))
          (λ insts rest' _. Takes-done _ rest')))

Takes-read_locals : Takes 0 read_locals
unfolding read_locals
Takes-read_locals =
    Takes-less (
      >>=-Takes 1 1 Takes-read_u32_leb128 (λ n. >>=-Takes 1 0 Takes-read_byte (λ vt. Takes-done _)))

Takes-read_code :
    (i : ℕ) (body_bytes : Text) (locals : List ℕ) → Takes 0 (read_code i body_bytes locals)
unfolding read_code
Takes-read_code i body_bytes locals rest =
    continue_with-Taken {j = 0} {k = 0}
      (read_instructions-Taken (length rest) body_bytes _ rest (omega arith))
      (λ insts rest' _. Takes-done _ rest')

Takes-read_all_locals : Takes 1 read_all_locals
unfolding read_all_locals
Takes-read_all_locals = >>=-Takes 1 0 Takes-read_u32_leb128 (λ n.
    >>=-Takes 0 0 (Takes-repeat n 0 (λ _. Takes-read_locals)) (λ runs. Takes-done (flatten runs)))

pub disassemble_function_body-Taken :
    (i : ℕ) (body_bytes : Text) → Taken 0 body_bytes (disassemble_function_body i body_bytes)
unfolding disassemble_function_body
disassemble_function_body-Taken i body_bytes =
    Takes-less (>>=-Takes 1 0 Takes-read_all_locals (Takes-read_code i body_bytes)) body_bytes
