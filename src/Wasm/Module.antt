-- ===== src/Wasm/Module.antt =====
-- The types of wasm_disasm.go with their texts, and the lookup of signatures.
use stellar_xdr_lens.Prelude.{
  ◌-◌, ◌⊎◌, ◌∷◌, ◌++◌, ◌==◌, if◌then◌else◌, [], none, some, List, Text, itoa, ℕ, Option, codes, inl,
  inr, ltb, get_elem?, map,
}
use stellar_xdr_lens.Encoding.Hex.{hex_encode}
use stellar_xdr_lens.Tree.Value.{join_with}

-- A Go `switch` on a number: the first case that equals it, or the default.
unfoldable pub switch {ℓ} : {A : Type ℓ} → List (ℕ × A) → A → ℕ → A
switch [] otherwise k = otherwise
switch ((c, a) ∷ cases) otherwise k =
    let rest = switch cases otherwise k in if k == c then a else rest

-- WASMValType is the byte; its String.
unfoldable pub val_type_string : ℕ → Text
unfolding switch hex_encode
val_type_string v =
    switch
      ((0x7f, codes "i32")
        ∷ (0x7e, codes "i64")
        ∷ (0x7d, codes "f32")
        ∷ (0x7c, codes "f64")
        ∷ (0x7b, codes "v128")
        ∷ (0x70, codes "funcref")
        ∷ (0x6f, codes "externref")
        ∷ [])
      (codes "0x" ++ hex_encode (v ∷ [])) v

pub record WasmFunctionType : Type 0 where
  pub params : List ℕ
  pub results : List ℕ

unfoldable pub signature : WasmFunctionType → Text
unfolding val_type_string join_with
signature ft =
    codes "("
    ++ (join_with (codes ", ") (map val_type_string ft.params)
        ++ (codes ") -> ("
            ++ (join_with (codes ", ") (map val_type_string ft.results) ++ codes ")")))

-- WASMExportKind is the byte; its constants and String.
abbrev pub export_kind_function : ℕ
export_kind_function = 0

abbrev pub export_kind_table : ℕ
export_kind_table = 1

abbrev pub export_kind_memory : ℕ
export_kind_memory = 2

abbrev pub export_kind_global : ℕ
export_kind_global = 3

unfoldable pub export_kind_string : ℕ → Text
unfolding switch itoa
export_kind_string k =
    switch
      ((0, codes "function") ∷ (1, codes "table") ∷ (2, codes "memory") ∷ (3, codes "global") ∷ [])
      (codes "unknown(" ++ (itoa k ++ codes ")")) k

pub record WasmExport : Type 0 where
  pub export_name : Text
  pub export_kind : ℕ
  pub export_index : ℕ
  pub export_signature : Text
  pub export_type : Option WasmFunctionType

pub record WasmImport : Type 0 where
  pub import_module : Text
  pub import_field : Text
  pub import_kind : ℕ
  pub import_type_index : ℕ
  pub import_signature : Text

pub record WasmCustomSection : Type 0 where
  pub section_name : Text
  pub section_data : Text

pub record WasmInstruction : Type 0 where
  pub offset : ℕ
  pub opcode : ℕ
  pub mnemonic : Text
  pub operand : Text

pub record WasmFunctionBody : Type 0 where
  pub body_index : ℕ
  pub body_name : Text
  pub locals : List ℕ
  pub instructions : List WasmInstruction

-- ExportedSignatures is the function from a name to what the map has for it.
pub record WasmModule : Type 0 where
  pub version : ℕ
  pub types : List WasmFunctionType
  pub imports : List WasmImport
  pub imported_func_count : ℕ
  pub functions : List ℕ
  pub exports : List WasmExport
  pub custom_sections : List WasmCustomSection
  pub function_bodies : List WasmFunctionBody
  pub exported_signatures : Text → Option Text

-- A signature and the function type that it was printed from, if there is one.
abbrev pub Resolved : Type 0
Resolved = Text × Option WasmFunctionType

unfoldable pub typed : Text → Option WasmFunctionType → Resolved
unfolding signature
typed fallback none = (fallback, none)
typed fallback (some ft) = (signature ft, some ft)

-- The loop over the imports: the answer that it returns, or funcIdx as it has counted it down.
unfoldable pub resolve_imported : List WasmFunctionType → List WasmImport → ℕ → Resolved ⊎ ℕ
unfolding typed
resolve_imported ts [] i = inr i
resolve_imported ts (imp ∷ imps) i =
    let same = resolve_imported ts imps i in
    let next = resolve_imported ts imps (i - 1) in
    if imp.import_kind == export_kind_function
    then (if i == 0
        then inl (typed imp.import_signature (get_elem? ts imp.import_type_index))
        else next)
    else same

unfoldable pub resolve_type_index : List WasmFunctionType → Option ℕ → Resolved
unfolding typed
resolve_type_index ts none = (codes "() -> ()", none)
resolve_type_index ts (some t) = typed (codes "() -> ()") (get_elem? ts t)

-- Behind the loop: definedIdx := int(funcIdx) - mod.ImportedFuncCount, where a negative index finds
-- nothing.
unfoldable pub resolve_defined : WasmModule → ℕ → Resolved
unfolding resolve_type_index
resolve_defined m i =
    if ltb i m.imported_func_count
    then (codes "() -> ()", none)
    else resolve_type_index m.types (get_elem? m.functions (i - m.imported_func_count))

unfoldable pub after_imports : WasmModule → Resolved ⊎ ℕ → Resolved
unfolding resolve_defined
after_imports m (inl r) = r
after_imports m (inr i) = resolve_defined m i

unfoldable pub resolve_function_signature : WasmModule → ℕ → Resolved
unfolding resolve_imported after_imports
resolve_function_signature m i =
    if ltb i m.imported_func_count
    then after_imports m (resolve_imported m.types m.imports i)
    else resolve_defined m i
