-- ===== src/Wasm/Code.antt =====
-- disassembleFunctionBody and opcodeMnemonic.
use stellar_xdr_lens.Prelude.{
  ◌+◌, ◌-◌, ◌∷◌, ◌++◌, zero, suc, [], List, Text, ℕ, itoa, length, show_int, codes, replicate,
}
use stellar_xdr_lens.Encoding.Hex.{hex_encode}
use stellar_xdr_lens.Wasm.Leb.{read_u32_leb128, read_i32_leb128}
use stellar_xdr_lens.Wasm.Reader.{read_byte, Reader, repeat, ◌>>=◌, done}
use stellar_xdr_lens.Errors.{Result, ok, stuck}
use stellar_xdr_lens.Wasm.Module.{WasmFunctionBody, WasmInstruction, switch}

unfoldable pub opcode_mnemonic : ℕ → Text
unfolding switch hex_encode
opcode_mnemonic op =
    switch
      ((0x00, codes "unreachable")
        ∷ (0x01, codes "nop")
        ∷ (0x02, codes "block")
        ∷ (0x03, codes "loop")
        ∷ (0x04, codes "if")
        ∷ (0x05, codes "else")
        ∷ (0x0b, codes "end")
        ∷ (0x0c, codes "br")
        ∷ (0x0d, codes "br_if")
        ∷ (0x0f, codes "return")
        ∷ (0x10, codes "call")
        ∷ (0x1a, codes "drop")
        ∷ (0x1b, codes "select")
        ∷ (0x20, codes "local.get")
        ∷ (0x21, codes "local.set")
        ∷ (0x22, codes "local.tee")
        ∷ (0x23, codes "global.get")
        ∷ (0x24, codes "global.set")
        ∷ (0x41, codes "i32.const")
        ∷ (0x42, codes "i64.const")
        ∷ (0x45, codes "i32.eqz")
        ∷ (0x46, codes "i32.eq")
        ∷ (0x47, codes "i32.ne")
        ∷ (0x6a, codes "i32.add")
        ∷ (0x6b, codes "i32.sub")
        ∷ (0x6c, codes "i32.mul")
        ∷ (0x7c, codes "i64.add")
        ∷ (0x7d, codes "i64.sub")
        ∷ [])
      (codes "0x" ++ hex_encode (op ∷ [])) op

-- The operands that are read, and how each is printed.
pub data OperandKind : Type 0 where
  block_type label func local global i32_const no_operand : OperandKind

unfoldable pub operand_kind : ℕ → OperandKind
unfolding switch
operand_kind op =
    switch
      ((0x02, block_type)
        ∷ (0x03, block_type)
        ∷ (0x04, block_type)
        ∷ (0x0c, label)
        ∷ (0x0d, label)
        ∷ (0x10, func)
        ∷ (0x20, local)
        ∷ (0x21, local)
        ∷ (0x22, local)
        ∷ (0x23, global)
        ∷ (0x24, global)
        ∷ (0x41, i32_const)
        ∷ [])
      (no_operand) op

unfoldable pub target : Text → Reader Text
unfolding read_u32_leb128 itoa
target head = do n ← read_u32_leb128; done (head ++ itoa n)

unfoldable pub read_operand : OperandKind → Reader Text
unfolding read_byte hex_encode target read_i32_leb128 show_int
read_operand block_type = do bt ← read_byte; done (codes "blocktype:0x" ++ hex_encode (bt ∷ []))
read_operand label = target (codes "label:")
read_operand func = target (codes "func:")
read_operand local = target (codes "local:")
read_operand global = target (codes "global:")
read_operand i32_const = do val ← read_i32_leb128; done (show_int val)
read_operand no_operand = done []

-- One run of locals: a count and the type that it repeats.
unfoldable pub read_locals : Reader (List ℕ)
unfolding read_u32_leb128 read_byte
read_locals = do count ← read_u32_leb128; vt ← read_byte; done (replicate count vt)

-- `offset + (len(bodyBytes) - r.Len())` when `rest` is still to read.
unfoldable pub curr_offset : Text → ℕ → Text → ℕ
curr_offset body_bytes offset rest = offset + (length body_bytes - length rest)

-- The opcode at the head of the rest, and its operand.
unfoldable pub read_instruction : ℕ → Reader WasmInstruction
unfolding read_byte read_operand operand_kind opcode_mnemonic
read_instruction at = do
  op ← read_byte
  operand ← read_operand (operand_kind op)
  done (record { offset = at; opcode = op; mnemonic = opcode_mnemonic op; operand = operand })

-- The loop over the instructions, which the last byte ends: so does an `end` there. Each round takes a
-- byte, so the length of the rest is fuel enough.
unfoldable pub read_instructions : ℕ → Text → ℕ → Reader (List WasmInstruction)
unfolding read_instruction curr_offset
read_instructions fuel body_bytes offset [] = ok ([], [])
read_instructions zero body_bytes offset (b ∷ r) = stuck
read_instructions (suc fuel) body_bytes offset (b ∷ r) =
    (do
      inst ← read_instruction (curr_offset body_bytes offset (b ∷ r))
      insts ← read_instructions fuel body_bytes offset
      done (inst ∷ insts))
      (b ∷ r)

-- Behind the locals, whose count of bytes is `offset`.
unfoldable pub read_code : ℕ → Text → List ℕ → Reader WasmFunctionBody
unfolding read_instructions
read_code func_idx body_bytes locals rest =
    (do
      insts ← read_instructions (length rest) body_bytes (length body_bytes - length rest)
      done
          (record { body_index = func_idx; body_name = []; locals = locals; instructions = insts }))
      rest

unfoldable pub flatten {ℓ} : {A : Type ℓ} → List (List A) → List A
flatten [] = []
flatten (xs ∷ xss) = xs ++ flatten xss

-- The runs of locals, one value type for each local.
unfoldable pub read_all_locals : Reader (List ℕ)
unfolding read_u32_leb128 repeat read_locals flatten
read_all_locals = do
  local_count ← read_u32_leb128
  runs ← repeat local_count (λ _. read_locals) 0
  done (flatten runs)

unfoldable pub disassemble_function_body : ℕ → Text → Result (WasmFunctionBody × Text)
unfolding read_all_locals read_code
disassemble_function_body func_idx body_bytes =
    (do locals ← read_all_locals; read_code func_idx body_bytes locals) body_bytes
