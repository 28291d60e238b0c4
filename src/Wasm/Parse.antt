-- ===== src/Wasm/Parse.antt =====
-- ParseWASM.
use stellar_xdr_lens.Prelude.{
  ◌+◌, ◌*◌, ◌^◌, ◌∷◌, ◌==◌, if◌then◌else◌, zero, suc, [], none, some, Text, text_eq, ℕ, List,
  Option, ltb, map, length, take, not, drop,
}
use stellar_xdr_lens.Errors.{Result, ok, err, stuck, invalid_wasm_magic, unsupported_wasm_version}
use stellar_xdr_lens.Wasm.Module.{
  WasmModule, resolve_function_signature, WasmExport, export_kind_function,
}
use stellar_xdr_lens.Wasm.Reader.{read_byte, read_bytes, Reader, ◌>>=◌, malformed, done}
use stellar_xdr_lens.Wasm.Sections.{parse_section}
use stellar_xdr_lens.Wasm.Leb.{read_u32_leb128}

abbrev pub wasm_magic : Text
wasm_magic = 0 ∷ 0x61 ∷ 0x73 ∷ 0x6d ∷ []

-- binary.LittleEndian.Uint32 on a buffer of four bytes.
unfoldable pub uint32_le : Text → ℕ
uint32_le (a ∷ b ∷ c ∷ d ∷ rest) = a + b * 2 ^ 8 + c * 2 ^ 16 + d * 2 ^ 24
uint32_le _ = 0

unfoldable pub empty_module : ℕ → WasmModule
empty_module v = record {
  version = v;
  types = [];
  imports = [];
  imported_func_count = 0;
  functions = [];
  exports = [];
  custom_sections = [];
  function_bodies = [];
  exported_signatures = λ _. none;
}

-- The head and the payload of the next section.
unfoldable pub read_section : Reader (ℕ × Text)
unfolding read_byte read_u32_leb128 read_bytes
read_section = do
  id ← malformed read_byte
  size ← malformed read_u32_leb128
  payload ← malformed (read_bytes size)
  done (id, payload)

unfoldable pub section_parsed :
    (WasmModule → Text → Result WasmModule) → Text → Result WasmModule → Result WasmModule
section_parsed go_on rest (ok m) = go_on m rest
section_parsed go_on rest (err e) = err e
section_parsed go_on rest stuck = stuck

unfoldable pub section_read :
    (WasmModule → Text → Result WasmModule)
    → WasmModule
    → Result ((ℕ × Text) × Text)
    → Result WasmModule
unfolding section_parsed parse_section
section_read go_on m (ok ((id, payload), rest)) =
    section_parsed go_on rest (parse_section m payload id)
section_read go_on m (err e) = err e
section_read go_on m stuck = stuck

-- The loop over the sections. Each round takes two bytes at least, so the length of the input is fuel
-- enough.
unfoldable pub read_sections : ℕ → WasmModule → Text → Result WasmModule
unfolding read_section section_read
read_sections fuel m [] = ok m
read_sections zero m (b ∷ r) = stuck
read_sections (suc fuel) m (b ∷ r) = section_read (read_sections fuel) m (read_section (b ∷ r))

unfoldable pub set_signature : Text → Text → (Text → Option Text) → Text → Option Text
unfolding text_eq
set_signature key sig sigs k = if text_eq key k then some sig else sigs k

unfoldable pub link_export : WasmModule → WasmExport → WasmExport
unfolding resolve_function_signature
link_export m e =
    if e.export_kind == export_kind_function
    then record e {
      export_signature = (resolve_function_signature m e.export_index).0;
      export_type = (resolve_function_signature m e.export_index).1;
    }
    else e

-- The signatures that the loop over the exports has recorded, each export after those before it.
unfoldable pub record_signatures :
    WasmModule → List WasmExport → (Text → Option Text) → Text → Option Text
unfolding set_signature resolve_function_signature
record_signatures m [] sigs = sigs
record_signatures m (e ∷ es) sigs =
    let same = record_signatures m es sigs in
    let sig = (resolve_function_signature m e.export_index).0 in
    let next = record_signatures m es (set_signature e.export_name sig sigs) in
    if e.export_kind == export_kind_function then next else same

unfoldable pub link_exports : WasmModule → WasmModule
unfolding link_export record_signatures
link_exports m = record m {
  exports = map (link_export m) m.exports;
  exported_signatures = record_signatures m m.exports m.exported_signatures;
}

unfoldable pub linked : Result WasmModule → Result WasmModule
unfolding link_exports
linked (ok m) = ok (link_exports m)
linked (err e) = err e
linked stuck = stuck

unfoldable pub parse_wasm : Text → Result WasmModule
unfolding text_eq uint32_le empty_module read_sections linked
parse_wasm bs =
    if ltb (length bs) 8
    then err (invalid_wasm_magic ∷ [])
    else if not (text_eq (take 4 bs) wasm_magic)
    then err (invalid_wasm_magic ∷ [])
    else if not (uint32_le (take 4 (drop 4 bs)) == 1)
    then err (unsupported_wasm_version ∷ [])
    else linked (read_sections (length (drop 8 bs)) (empty_module 1) (drop 8 bs))
