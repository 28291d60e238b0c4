-- ===== src/Tests/Modules.antt =====
-- WebAssembly modules of wasm_disasm.go.
use stellar_xdr_lens.Prelude.{
  ◌%◌, ◌≡◌, ◌∷◌, ◌++◌, [], refl, Each, List, Text, take, codes, ℕ, get_elem?, arith, drop,
}
use stellar_xdr_lens.Tree.Value.{Node, node, struct, nil, more, scalar, bytes, empty}
use stellar_xdr_lens.Wasm.Code.{disassemble_function_body, read_all_locals}
use stellar_xdr_lens.Wasm.Found.{Searched, HoldsWasm, search_wasm_in_node-Searched}
use stellar_xdr_lens.Wasm.Leb.{read_u32_leb128, word}
use stellar_xdr_lens.Wasm.Leb.Groups.{Decodes, read_u32_leb128-Decodes}
use stellar_xdr_lens.Wasm.Module.{
  WasmFunctionBody, WasmModule, resolve_function_signature, WasmFunctionType,
}
use stellar_xdr_lens.Wasm.Parse.{
  parse_wasm, empty_module, wasm_magic, link_exports, linked, uint32_le,
}
use stellar_xdr_lens.Wasm.Sections.{count_functions}
use stellar_xdr_lens.Wasm.Total.{parse_wasm-Ends}
use stellar_xdr_lens.Wasm.Write.{
  put_contents, NewExport, put_module, put_vector, put_function_type, put_export, put_name,
  put_byte, concat_map,
}
use stellar_xdr_lens.Errors.{Ends, ok}
use stellar_xdr_lens.Wasm.Leb.RoundTrip.{put_u32_leb128, read_u32_leb128-put}
use stellar_xdr_lens.Wasm.Offsets.{OpcodeAt, disassemble_function_body-OpcodeAt}
use stellar_xdr_lens.Wasm.Space.{or_unknown, index_space, resolve_function_signature_lem}
use stellar_xdr_lens.Wasm.Search.{search_wasm_in_node}
use stellar_xdr_lens.Wasm.Contents.{contents, parse_wasm-contents, IsWritable}
use stellar_xdr_lens.Wasm.RoundTrip.{parse_all, parse_wasm-put}
use stellar_xdr_lens.Wasm.Link.{IsParsed, parse_wasm-IsParsed}

-- Three groups with a byte behind them.
read_u32_leb128-Decodes_example :
    Decodes
      (λ v. v % word)
      5
      (0xe5 ∷ 0x8e ∷ 0x26 ∷ 7 ∷ [])
      (read_u32_leb128 (0xe5 ∷ 0x8e ∷ 0x26 ∷ 7 ∷ []))
read_u32_leb128-Decodes_example = read_u32_leb128-Decodes (0xe5 ∷ 0x8e ∷ 0x26 ∷ 7 ∷ [])

three_groups_back : read_u32_leb128 (put_u32_leb128 624485 ++ (7 ∷ [])) ≡ ok (624485, 7 ∷ [])
three_groups_back = read_u32_leb128-put 624485 (7 ∷ []) (omega arith)

abbrev adder_types : List WasmFunctionType
adder_types = record { params = 0x7f ∷ 0x7f ∷ []; results = 0x7f ∷ [] } ∷ []

-- A function and its export, and the export of a memory.
abbrev adder_exports : List NewExport
adder_exports = (codes "add", 0, 0) ∷ (codes "mem", 2, 0) ∷ []

abbrev adder_bytes : Text
adder_bytes = put_module (put_contents adder_types (0 ∷ []) adder_exports)

adder-IsWritable : IsWritable adder_types (0 ∷ []) adder_exports
unfolding put_contents put_vector put_function_type put_export put_name put_byte put_u32_leb128
    concat_map
adder-IsWritable = record {
  types_short = ((omega arith, omega arith), tt);
  functions_short = (omega arith, tt);
  exports_short = ((omega arith, omega arith), ((omega arith, omega arith), tt));
  counts_short = (omega arith, omega arith, omega arith);
  sections_short = (omega arith, (omega arith, (omega arith, tt)));
}

parse_wasm-contents_example :
    parse_wasm adder_bytes ≡ ok (link_exports (contents adder_types (0 ∷ []) adder_exports))
parse_wasm-contents_example =
    parse_wasm-contents adder_types (0 ∷ []) adder_exports adder-IsWritable

adder_parsed :
    parse_wasm adder_bytes ≡ ok (link_exports (contents adder_types (0 ∷ []) adder_exports))
adder_parsed = parse_wasm-contents adder_types (0 ∷ []) adder_exports adder-IsWritable

parse_wasm-IsParsed_example :
    (take 4 adder_bytes ≡ wasm_magic)
    × (uint32_le (take 4 (drop 4 adder_bytes)) ≡ 1)
    × IsParsed (link_exports (contents adder_types (0 ∷ []) adder_exports))
parse_wasm-IsParsed_example = parse_wasm-IsParsed adder_bytes adder_parsed

parse_wasm-put_example :
    parse_wasm (put_module ((0, 1 ∷ b'x' ∷ 9 ∷ []) ∷ (5, []) ∷ []))
    ≡ linked (parse_all (empty_module 1) ((0, 1 ∷ b'x' ∷ 9 ∷ []) ∷ (5, []) ∷ []))
parse_wasm-put_example =
    parse_wasm-put ((0, 1 ∷ b'x' ∷ 9 ∷ []) ∷ (5, []) ∷ []) (omega arith, (omega arith, tt))

-- A section that ends within its length.
parse_wasm-Ends_example : Ends (parse_wasm (wasm_magic ++ (1 ∷ 0 ∷ 0 ∷ 0 ∷ 1 ∷ 4 ∷ 1 ∷ [])))
parse_wasm-Ends_example = parse_wasm-Ends (wasm_magic ++ (1 ∷ 0 ∷ 0 ∷ 0 ∷ 1 ∷ 4 ∷ 1 ∷ []))

-- An imported function, an imported memory, and a function of the module.
abbrev importer : WasmModule
importer = record (empty_module 1) {
  types = adder_types;
  imports =
      record {
        import_module = codes "env";
        import_field = codes "f";
        import_kind = 0;
        import_type_index = 3;
        import_signature = [];
      }
      ∷ record {
        import_module = codes "env";
        import_field = codes "m";
        import_kind = 2;
        import_type_index = 0;
        import_signature = [];
      }
      ∷ [];
  imported_func_count = 1;
  functions = 0 ∷ [];
}

importer_count : importer.imported_func_count ≡ count_functions importer.imports
unfolding count_functions
importer_count = refl

resolve_function_signature_lem_example :
    resolve_function_signature importer 1 ≡ or_unknown (get_elem? (index_space importer) 1)
resolve_function_signature_lem_example = resolve_function_signature_lem importer 1 importer_count

-- Two locals, then local.get 1 and end.
abbrev small_body : Text
small_body = 1 ∷ 2 ∷ 0x7f ∷ 0x20 ∷ 1 ∷ 0x0b ∷ []

abbrev small_function : WasmFunctionBody
small_function = record {
  body_index = 4;
  body_name = [];
  locals = 0x7f ∷ 0x7f ∷ [];
  instructions =
      record { offset = 6; opcode = 0x20; mnemonic = codes "local.get"; operand = codes "local:1" }
      ∷ record { offset = 8; opcode = 0x0b; mnemonic = codes "end"; operand = [] }
      ∷ [];
}

small_locals : read_all_locals small_body ≡ ok (0x7f ∷ 0x7f ∷ [], 0x20 ∷ 1 ∷ 0x0b ∷ [])
unfolding read_all_locals
small_locals = refl

small_disassembled : disassemble_function_body 4 small_body ≡ ok (small_function, [])
unfolding disassemble_function_body
small_disassembled = refl

disassemble_function_body-OpcodeAt_example :
    (small_function.body_index ≡ 4)
    × (small_function.locals ≡ 0x7f ∷ 0x7f ∷ [])
    × Each (OpcodeAt small_body 3) small_function.instructions
disassemble_function_body-OpcodeAt_example =
    disassemble_function_body-OpcodeAt 4 small_body small_locals small_disassembled

abbrev code_entry : Node ℕ
code_entry = node [] struct (codes "ContractCodeEntry") nil [] (
    more (node (codes "Hash") scalar (codes "Hash") (bytes (1 ∷ [])) [] empty) (
      more (node (codes "Code") scalar (codes "[]byte") (bytes (wasm_magic ++ (1 ∷ []))) [] empty)
        empty))

search_wasm_in_node-Searched_example :
    Searched (λ b. HoldsWasm b code_entry) (search_wasm_in_node code_entry)
search_wasm_in_node-Searched_example = search_wasm_in_node-Searched code_entry
