-- ===== src/Wasm/Space.antt =====
-- The index space of functions, in which the imports stand before the functions of the module, and
-- resolveFunctionSignature as a lookup in it.
use stellar_xdr_lens.Prelude.{
  ◌-◌, ◌≤◌, ◌<◌, ◌≡◌, ◌∙◌, ◌∷◌, ◌++◌, if◌then◌else◌, ◌==◌, zero, suc, [], none, some, refl, List,
  Option, ℕ, codes, get_elem?, length, map, Bool-cases, ap, arith, inl, ltb, inr, lt_of_ltb,
  le_of_not_ltb, sym, eq_false,
}
use stellar_xdr_lens.Wasm.Module.{
  WasmModule, resolve_function_signature, resolve_type_index, typed, Resolved, WasmFunctionType,
  resolve_imported, WasmImport, after_imports, export_kind_function, resolve_defined,
}
use stellar_xdr_lens.Wasm.Sections.{count_functions, is_function_import}

-- What an index says of an imported function: its type, or the text that the import was read with.
unfoldable pub import_entries : List WasmFunctionType → List WasmImport → List Resolved
unfolding is_function_import typed
import_entries ts [] = []
import_entries ts (imp ∷ imps) =
    let rest = import_entries ts imps in
    if is_function_import imp
    then typed imp.import_signature (get_elem? ts imp.import_type_index) ∷ rest
    else rest

unfoldable pub defined_entry : List WasmFunctionType → ℕ → Resolved
unfolding typed
defined_entry ts t = typed (codes "() -> ()") (get_elem? ts t)

unfoldable pub index_space : WasmModule → List Resolved
unfolding import_entries defined_entry
index_space m = import_entries m.types m.imports ++ map (defined_entry m.types) m.functions

unfoldable pub or_unknown : Option Resolved → Resolved
or_unknown none = (codes "() -> ()", none)
or_unknown (some r) = r

length-import_entries :
    (ts : List WasmFunctionType) (imps : List WasmImport)
    → length (import_entries ts imps) ≡ count_functions imps
unfolding import_entries count_functions
length-import_entries ts [] = refl
length-import_entries ts (imp ∷ imps) = elim (Bool-cases (is_function_import imp)) [
  | inl e ↦ rw e (ap suc (length-import_entries ts imps))
  | inr e ↦ rw e (length-import_entries ts imps)
]

resolve_imported_lem :
    (m : WasmModule) (ts : List WasmFunctionType) (imps : List WasmImport) (ys : List Resolved)
    (i : ℕ)
    → i < count_functions imps
    → after_imports m (resolve_imported ts imps i)
      ≡ or_unknown (get_elem? (import_entries ts imps ++ ys) i)
unfolding import_entries count_functions resolve_imported is_function_import or_unknown
    after_imports
resolve_imported_lem m ts [] ys i h = absurd (omega arith)
resolve_imported_lem m ts (imp ∷ imps) ys zero h =
    elim (Bool-cases (imp.import_kind == export_kind_function)) [
      | inl e ↦ rw e refl
      | inr e ↦ rw e (resolve_imported_lem m ts imps ys zero (rw e at h))
    ]
resolve_imported_lem m ts (imp ∷ imps) ys (suc i) h =
    let back : suc i - 1 ≡ i = omega arith in
    elim (Bool-cases (imp.import_kind == export_kind_function)) [
      | inl e ↦
          let h' : suc i < suc (count_functions imps) = rw e at h in
          rw (e, back, eq_false (suc i) 0 (omega arith))
            (resolve_imported_lem m ts imps ys i (omega arith))
      | inr e ↦ rw e (resolve_imported_lem m ts imps ys (suc i) (rw e at h))
    ]

get_elem?-append {ℓ} :
    {A : Type ℓ} (xs ys : List A) (i : ℕ)
    → length xs ≤ i
    → get_elem? (xs ++ ys) i ≡ get_elem? ys (i - length xs)
get_elem?-append [] ys i h = ap (get_elem? ys) (omega arith)
get_elem?-append (x ∷ xs) ys zero h = absurd (omega arith)
get_elem?-append (x ∷ xs) ys (suc i) h =
    get_elem?-append xs ys i (omega arith) ∙ ap (get_elem? ys) (omega arith)

or_unknown-map :
    (ts : List WasmFunctionType) (fs : List ℕ) (i : ℕ)
    → or_unknown (get_elem? (map (defined_entry ts) fs) i) ≡ resolve_type_index ts (get_elem? fs i)
unfolding or_unknown resolve_type_index defined_entry
or_unknown-map ts [] i = refl
or_unknown-map ts (f ∷ fs) zero = refl
or_unknown-map ts (f ∷ fs) (suc i) = or_unknown-map ts fs i

-- If the imported functions are counted, resolveFunctionSignature looks its index up in the list of
-- imported and then defined functions, and answers `() -> ()` without a type behind its end.
pub resolve_function_signature_lem :
    (m : WasmModule) (i : ℕ)
    → m.imported_func_count ≡ count_functions m.imports
    → resolve_function_signature m i ≡ or_unknown (get_elem? (index_space m) i)
unfolding resolve_function_signature index_space
resolve_function_signature_lem m i h = elim (Bool-cases (ltb i m.imported_func_count)) [
  | inl e ↦ rw e (resolve_imported_lem m m.types m.imports _ i (omega (arith, lt_of_ltb i _ e)))
  | inr e ↦
      let le : m.imported_func_count ≤ i = le_of_not_ltb i _ e in
      let count = length-import_entries m.types m.imports in
      unfold resolve_defined in
      rw (e, get_elem?-append (import_entries m.types m.imports) _ i (omega arith), count, sym h)
        (sym (or_unknown-map m.types m.functions (i - m.imported_func_count)))
]
