-- ===== src/Wasm/Offsets.antt =====
-- The offsets that disassembleFunctionBody gives its instructions.
use stellar_xdr_lens.Wasm.Reader.{◌>>=◌, Reader, continue_with, done}
use stellar_xdr_lens.Wasm.Gives.{on_ok, on_err, on_stuck, Whenever, Whenever-ok, next_items}
use stellar_xdr_lens.Prelude.{
  ◌+◌, ◌-◌, ◌≡◌, ◌∷◌, ◌++◌, some, Text, ℕ, get_elem?, length, ◌∙◌, zero, suc, [], refl, List, sym,
  Each, length-append, ap, each_none, arith,
}
use stellar_xdr_lens.Wasm.Code.{
  read_instruction, curr_offset, disassemble_function_body, read_instructions, operand_kind,
  read_all_locals, read_code,
}
use stellar_xdr_lens.Wasm.Leaves.{
  Suffix, Leaves-read_operand, Left, Suffix_trans, Leaves-read_all_locals,
}
use stellar_xdr_lens.Wasm.Module.{WasmInstruction, WasmFunctionBody}
use stellar_xdr_lens.Errors.{Result, ok}
use mathlib.Core.Path.{subst}

-- The opcode of the instruction stands in the body at a position that is its offset less `start`.
abbrev pub OpcodeAt : Text → ℕ → WasmInstruction → Type 0
OpcodeAt body_bytes start inst =
    (at : ℕ) × (inst.offset ≡ start + at) × (get_elem? body_bytes at ≡ some inst.opcode)

get_elem?-behind :
    (pre : Text) (b : ℕ) (r : Text) → get_elem? (pre ++ (b ∷ r)) (length pre) ≡ some b
get_elem?-behind [] b r = refl
get_elem?-behind (x ∷ pre) b r = get_elem?-behind pre b r

curr_offset-Suffix :
    (body_bytes : Text) (start b : ℕ) (r : Text)
    → Suffix (b ∷ r) body_bytes
    → (at : ℕ) × (curr_offset body_bytes start (b ∷ r) ≡ start + at)
      × (get_elem? body_bytes at ≡ some b)
unfolding curr_offset
curr_offset-Suffix body_bytes start b r (pre, e) =
    let lengths : length pre + length (b ∷ r) ≡ length body_bytes =
      sym (length-append pre (b ∷ r)) ∙ ap length e in
    (length pre, omega (arith, lengths), rw (sym e) (get_elem?-behind pre b r))

-- One instruction, and what is left behind it.
abbrev Placed : Text → ℕ → WasmInstruction × Text → Type 0
Placed body_bytes start p = OpcodeAt body_bytes start p.0 × Suffix p.1 body_bytes

operand-Placed :
    (body_bytes : Text) (start : ℕ) {r : Text} (inst : Text → WasmInstruction)
    {out : Result (Text × Text)}
    → Left r out
    → Suffix r body_bytes
    → ((o : Text) → OpcodeAt body_bytes start (inst o))
    → Whenever (Placed body_bytes start) (continue_with out (λ o. done (inst o)))
operand-Placed body_bytes start inst (on_ok {a = (o, rest)} h) k placed =
    on_ok (placed o, Suffix_trans h k)
operand-Placed body_bytes start inst on_err k placed = on_err
operand-Placed body_bytes start inst on_stuck k placed = on_stuck

read_instruction-Placed :
    (body_bytes : Text) (start b : ℕ) (r : Text)
    → Suffix (b ∷ r) body_bytes
    → Whenever
        (Placed body_bytes start)
        (read_instruction (curr_offset body_bytes start (b ∷ r)) (b ∷ r))
unfolding read_instruction
read_instruction-Placed body_bytes start b r h =
    operand-Placed body_bytes start _ (Leaves-read_operand (operand_kind b) r)
      (Suffix_trans (b ∷ [], refl) h) (λ o. curr_offset-Suffix body_bytes start b r h)

all-Placed :
    (body_bytes : Text) (start : ℕ) {out : Result (WasmInstruction × Text)}
    (more : Reader (List WasmInstruction))
    → Whenever (Placed body_bytes start) out
    → ((rest : Text)
        → Suffix rest body_bytes
        → Whenever (λ p. Each (OpcodeAt body_bytes start) p.0) (more rest))
    → Whenever
        (λ p. Each (OpcodeAt body_bytes start) p.0)
        (continue_with out (λ inst. more >>= λ insts. done (inst ∷ insts)))
all-Placed body_bytes start more (on_ok {a = (inst, rest)} (p, h)) k = next_items inst p (k rest h)
all-Placed body_bytes start more on_err k = on_err
all-Placed body_bytes start more on_stuck k = on_stuck

read_instructions-OpcodeAt :
    (fuel : ℕ) (body_bytes : Text) (start : ℕ) (r : Text)
    → Suffix r body_bytes
    → Whenever
        (λ p. Each (OpcodeAt body_bytes start) p.0)
        (read_instructions fuel body_bytes start r)
unfolding read_instructions
read_instructions-OpcodeAt fuel body_bytes start [] h = on_ok each_none
read_instructions-OpcodeAt zero body_bytes start (b ∷ r) h = on_stuck
read_instructions-OpcodeAt (suc fuel) body_bytes start (b ∷ r) h =
    all-Placed body_bytes start _ (read_instruction-Placed body_bytes start b r h)
      (λ rest k. read_instructions-OpcodeAt fuel body_bytes start rest k)

abbrev BodyOf : Text → List ℕ → ℕ → ℕ → WasmFunctionBody → Type 0
BodyOf body_bytes locals start i body =
    (body.body_index ≡ i)
    × (body.locals ≡ locals)
    × Each (OpcodeAt body_bytes start) body.instructions

read_code_BodyOf :
    (i : ℕ) (body_bytes : Text) (locals : List ℕ) (start : ℕ)
    {out : Result (List WasmInstruction × Text)}
    → Whenever (λ p. Each (OpcodeAt body_bytes start) p.0) out
    → Whenever
        (λ p. BodyOf body_bytes locals start i p.0)
        (continue_with out (λ insts.
          done (record { body_index = i; body_name = []; locals = locals; instructions = insts })))
read_code_BodyOf i body_bytes locals start (on_ok {a = (insts, rest)} h) = on_ok (refl, refl, h)
read_code_BodyOf i body_bytes locals start on_err = on_err
read_code_BodyOf i body_bytes locals start on_stuck = on_stuck

-- A body that could be disassembled has the given index and the locals of its prefix, and the offset of each instruction
-- is the position of its opcode in the body, counted from the body's start, plus the length of that
-- prefix.
pub disassemble_function_body-OpcodeAt :
    (i : ℕ) (body_bytes : Text) {ls : List ℕ} {code rest : Text} {body : WasmFunctionBody}
    → read_all_locals body_bytes ≡ ok (ls, code)
    → disassemble_function_body i body_bytes ≡ ok (body, rest)
    → (body.body_index ≡ i)
      × (body.locals ≡ ls)
      × Each (OpcodeAt body_bytes (length body_bytes - length code)) body.instructions
unfolding disassemble_function_body
disassemble_function_body-OpcodeAt i body_bytes {ls = ls} {code = code} e f =
    let start = length body_bytes - length code in
    let h : Suffix code body_bytes =
      Whenever-ok (subst (λ out. Left body_bytes out) e (Leaves-read_all_locals body_bytes)) in
    let k : Whenever (λ p. BodyOf body_bytes ls start i p.0) (read_code i body_bytes ls code) =
      unfold read_code in
      read_code_BodyOf i body_bytes ls start
        (read_instructions-OpcodeAt (length code) body_bytes start code h) in
    Whenever-ok (subst (λ out. Whenever (λ p. BodyOf body_bytes ls start i p.0) out) (rw e at f) k)
