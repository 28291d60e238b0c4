-- ===== src/Wasm/Link.antt =====
-- What ParseWASM has established of a module when it returns one.

use stellar_xdr_lens.Prelude.{
  ◌≡◌, ◌≢◌, ◌==◌, [], none, refl, List, Each, Text, Bool-cases, map, take, each_more, get_elem?,
  inl, ==_iff, each_none, drop, inr, ltb, length, text_eq, text_eq_iff, eq_true,
}
use stellar_xdr_lens.Errors.{Error, err, ok, Result}
use stellar_xdr_lens.Wasm.Module.{WasmModule, Resolved, WasmExport, export_kind_function}
use stellar_xdr_lens.Wasm.Parse.{
  link_export, linked, parse_wasm, empty_module, link_exports, wasm_magic, uint32_le,
}
use stellar_xdr_lens.Wasm.Sections.{count_functions}
use stellar_xdr_lens.Wasm.Invariant.{Unlinked, IsRead, read_sections-IsRead}
use stellar_xdr_lens.Wasm.Space.{index_space, or_unknown, resolve_function_signature_lem}
use stellar_xdr_lens.Wasm.Gives.{Whenever, on_ok, on_err, on_stuck, Whenever-ok}
use mathlib.Core.Path.{subst}

err_is_no_ok {ℓ} : {A : Type ℓ} {e : Error} {a : A} → err e ≡ ok a → ⊥
err_is_no_ok h = cc

-- An export of a finished module: that of a function has the entry of its index in the index space, any
-- other has no signature.
pub data Linked (space : List Resolved) (e : WasmExport) : Type 0 where
  function_export :
      e.export_kind ≡ export_kind_function
      → (e.export_signature, e.export_type) ≡ or_unknown (get_elem? space e.export_index)
      → Linked space e
  other_export :
      e.export_kind ≢ export_kind_function
      → e.export_signature ≡ []
      → e.export_type ≡ none
      → Linked space e

link_export-Linked :
    (m : WasmModule) (e : WasmExport)
    → m.imported_func_count ≡ count_functions m.imports
    → Unlinked e
    → Linked (index_space m) (link_export m e)
unfolding link_export
link_export-Linked m e count (s, t) = elim (Bool-cases (e.export_kind == export_kind_function)) [
  | inl func ↦ rw func (
      function_export ((==_iff e.export_kind export_kind_function).0 func)
        (resolve_function_signature_lem m e.export_index count))
  | inr other ↦ rw other (other_export (λ same. cc (other, eq_true _ _ same)) s t)
]

-- What a returned module satisfies: its version is 1, imported functions are counted, and the exports
-- are linked.
pub record IsParsed (m : WasmModule) : Type 0 where
  pub is_version_one : m.version ≡ 1
  pub is_counted : m.imported_func_count ≡ count_functions m.imports
  pub is_linked : Each (Linked (index_space m)) m.exports

link_all :
    (m : WasmModule) {es : List WasmExport}
    → m.imported_func_count ≡ count_functions m.imports
    → Each Unlinked es
    → Each (Linked (index_space m)) (map (link_export m) es)
link_all m count each_none = each_none
link_all m count (each_more p h) = each_more (link_export-Linked m _ count p) (link_all m count h)

linked-IsParsed : {out : Result WasmModule} → Whenever IsRead out → Whenever IsParsed (linked out)
unfolding linked link_exports index_space
linked-IsParsed (on_ok {a = m} (v, count, es)) =
    on_ok (record { is_version_one = v; is_counted = count; is_linked = link_all m count es })
linked-IsParsed on_err = on_err
linked-IsParsed on_stuck = on_stuck

-- A module is returned only for the magic bytes and version 1. Its imported functions are counted, the
-- export of a function has the signature and the type that its index has in the index space of
-- imported and defined functions, and any other export has none.
pub parse_wasm-IsParsed :
    (bs : Text) {m : WasmModule}
    → parse_wasm bs ≡ ok m
    → (take 4 bs ≡ wasm_magic) × (uint32_le (take 4 (drop 4 bs)) ≡ 1) × IsParsed m
unfolding parse_wasm empty_module
parse_wasm-IsParsed bs e = elim (Bool-cases (ltb (length bs) 8)) [
  | inl short ↦ absurd (err_is_no_ok (rw short at e))
  | inr long ↦ elim (Bool-cases (text_eq (take 4 bs) wasm_magic)) [
    | inr bad ↦ absurd (err_is_no_ok (rw (long, bad) at e))
    | inl magic ↦ elim (Bool-cases (uint32_le (take 4 (drop 4 bs)) == 1)) [
      | inr bad ↦ absurd (err_is_no_ok (rw (long, magic, bad) at e))
      | inl one ↦ (
        (text_eq_iff _ _).0 magic,
        ((==_iff _ 1).0 one),
        Whenever-ok (
            subst (λ out. Whenever IsParsed out) (rw (long, magic, one) at e)
              (linked-IsParsed
                (read_sections-IsRead _ (empty_module 1) (drop 8 bs) (refl, refl, each_none)))),
      )
    ]
  ]
]
