-- ===== src/Wasm/Sections.antt =====
-- parseSection, one function per kind of section, with skipLimits and readName.
use stellar_xdr_lens.Prelude.{
  ◌+◌, ◌%◌, ◌^◌, ◌∷◌, ◌++◌, ◌==◌, if◌then◌else◌, suc, [], none, some, List, Bool, Text, ℕ,
  get_elem?,
}
use stellar_xdr_lens.Errors.{Result, err, malformed_wasm, ok, stuck}
use stellar_xdr_lens.Wasm.Leb.{read_u32_leb128}
use stellar_xdr_lens.Wasm.Module.{
  WasmImport, WasmModule, switch, WasmCustomSection, WasmExport, WasmFunctionBody, WasmFunctionType,
  signature, export_kind_function, export_kind_table, export_kind_memory, export_kind_global,
}
use stellar_xdr_lens.Wasm.Reader.{
  Reader, read_byte, read_bytes, repeat, ◌>>=◌, done, malformed, ◌>>◌,
}
use stellar_xdr_lens.Wasm.Code.{disassemble_function_body, flatten}

unfoldable pub skip_limits : Reader (Unit {0})
unfolding read_byte read_u32_leb128
skip_limits = do
  flags ← read_byte
  min ← read_u32_leb128
  (if flags == 1 then (do max ← read_u32_leb128; done tt) else done tt)

unfoldable pub read_name : Reader Text
unfolding read_u32_leb128 read_bytes
read_name = do n ← read_u32_leb128; read_bytes n

-- Case 0: the data are all that is behind the name.
unfoldable pub read_custom : Reader WasmCustomSection
unfolding read_name
read_custom = do
  n ← malformed read_name
  (λ rest. ok (record { section_name = n; section_data = rest }, []))

-- `form, err := r.ReadByte()` with its check: the error wraps ErrMalformedWASM alone.
unfoldable pub read_form : Reader (Unit {0})
read_form [] = err (malformed_wasm ∷ [])
read_form (form ∷ r) = if form == 0x60 then ok (tt, r) else err (malformed_wasm ∷ [])

-- A count and as many value types.
unfoldable pub read_val_types : Reader (List ℕ)
unfolding read_u32_leb128 repeat read_byte
read_val_types = do n ← read_u32_leb128; repeat n (λ _. read_byte) 0

unfoldable pub read_function_type : Reader WasmFunctionType
unfolding read_form read_val_types
read_function_type = do
  read_form
  params ← read_val_types
  results ← read_val_types
  done (record { params = params; results = results })

-- What follows the kind of an import: the type index of a function with its signature, or nothing that
-- is kept.
unfoldable pub read_import_function : List WasmFunctionType → Reader (ℕ × Text)
unfolding read_u32_leb128 signature
read_import_function ts = do
  t ← read_u32_leb128
  done (t, elim (get_elem? ts t) [ none ↦ [] | some ft ↦ signature ft ])

unfoldable pub skip_table : Reader (ℕ × Text)
unfolding read_byte skip_limits
skip_table = do malformed read_byte; malformed skip_limits; done (0, [])

unfoldable pub skip_memory : Reader (ℕ × Text)
unfolding skip_limits
skip_memory = do malformed skip_limits; done (0, [])

unfoldable pub skip_global : Reader (ℕ × Text)
unfolding read_byte
skip_global = do malformed read_byte; malformed read_byte; done (0, [])

unfoldable pub import_cases : List WasmFunctionType → List (ℕ × Reader (ℕ × Text))
unfolding read_import_function skip_table skip_memory skip_global
import_cases ts =
    (export_kind_function, read_import_function ts)
    ∷ (export_kind_table, skip_table)
    ∷ (export_kind_memory, skip_memory)
    ∷ (export_kind_global, skip_global)
    ∷ []

unfoldable pub read_import_rest : List WasmFunctionType → ℕ → Reader (ℕ × Text)
unfolding import_cases switch
read_import_rest ts = switch (import_cases ts) (done (0, []))

unfoldable pub read_import : List WasmFunctionType → Reader WasmImport
unfolding read_name read_byte read_import_rest
read_import ts = do
  module_name ← read_name
  field_name ← read_name
  kind ← read_byte
  rest ← read_import_rest ts kind
  done (record {
    import_module = module_name;
    import_field = field_name;
    import_kind = kind;
    import_type_index = rest.0;
    import_signature = rest.1;
  })

unfoldable pub is_function_import : WasmImport → Bool
is_function_import imp = imp.import_kind == export_kind_function

-- `mod.ImportedFuncCount++` for each function among the imports that are appended.
unfoldable pub count_functions : List WasmImport → ℕ
unfolding is_function_import
count_functions [] = 0
count_functions (imp ∷ imps) =
    let rest = count_functions imps in if is_function_import imp then suc rest else rest

unfoldable pub read_export : Reader WasmExport
unfolding read_name read_byte read_u32_leb128
read_export = do
  n ← read_name
  kind ← read_byte
  idx ← read_u32_leb128
  done (record {
    export_name = n;
    export_kind = kind;
    export_index = idx;
    export_signature = [];
    export_type = none;
  })

-- A body whose bytes could be read but not disassembled is left out.
unfoldable pub kept_body : Result (WasmFunctionBody × Text) → Reader (List WasmFunctionBody)
kept_body (ok (body, _)) = done (body ∷ [])
kept_body (err e) = done []
kept_body stuck = λ r. stuck

unfoldable pub read_body : ℕ → ℕ → Reader (List WasmFunctionBody)
unfolding read_u32_leb128 read_bytes disassemble_function_body kept_body
read_body imported i = do
  size ← read_u32_leb128
  body_bytes ← read_bytes size
  kept_body (disassemble_function_body ((imported + i) % 2 ^ 32) body_bytes)

-- A count, behind whose errors ErrMalformedWASM stands, and as many items, whose errors are returned
-- as they are.
unfoldable pub read_vector {ℓ} : {A : Type ℓ} → (ℕ → Reader A) → Reader (List A)
unfolding read_u32_leb128 repeat
read_vector item = do count ← malformed read_u32_leb128; repeat count item 0

abbrev pub update {ℓ} : {A : Type ℓ} → Result (A × Text) → (A → WasmModule) → Result WasmModule
update (ok (a, _)) f = ok (f a)
update (err e) f = err e
update stuck f = stuck

module _ (m : WasmModule) (payload : Text) where
  unfoldable pub parse_custom : Result WasmModule
  unfolding read_custom
  parse_custom =
      update (read_custom payload)
        (λ c. record m { custom_sections = m.custom_sections ++ (c ∷ []) })

  unfoldable pub parse_types : Result WasmModule
  unfolding read_vector read_function_type
  parse_types =
      update (read_vector (λ _. read_function_type) payload)
        (λ ts. record m { types = m.types ++ ts })

  unfoldable pub parse_imports : Result WasmModule
  unfolding read_vector read_import count_functions
  parse_imports = update (read_vector (λ _. read_import m.types) payload) (λ imps. record m {
    imports = m.imports ++ imps;
    imported_func_count = m.imported_func_count + count_functions imps;
  })

  unfoldable pub parse_functions : Result WasmModule
  unfolding read_vector read_u32_leb128
  parse_functions =
      update (read_vector (λ _. read_u32_leb128) payload)
        (λ fs. record m { functions = m.functions ++ fs })

  unfoldable pub parse_exports : Result WasmModule
  unfolding read_vector read_export
  parse_exports =
      update (read_vector (λ _. read_export) payload) (λ es. record m { exports = m.exports ++ es })

  unfoldable pub parse_code : Result WasmModule
  unfolding read_vector read_body flatten
  parse_code =
      update (read_vector (read_body m.imported_func_count) payload)
        (λ bodies. record m { function_bodies = m.function_bodies ++ flatten bodies })

  unfoldable pub section_cases : List (ℕ × Result WasmModule)
  unfolding parse_custom parse_types parse_imports parse_functions parse_exports parse_code
  section_cases =
      (0, parse_custom)
      ∷ (1, parse_types)
      ∷ (2, parse_imports)
      ∷ (3, parse_functions)
      ∷ (7, parse_exports)
      ∷ (10, parse_code)
      ∷ []

  -- A section of any other kind changes nothing.
  unfoldable pub parse_section : ℕ → Result WasmModule
  unfolding switch section_cases
  parse_section = switch section_cases (ok m)
