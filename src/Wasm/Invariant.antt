-- ===== src/Wasm/Invariant.antt =====
-- The state of ParseWASM between two sections.
use stellar_xdr_lens.Wasm.Reader.{Reader, malformed, read_byte}
use stellar_xdr_lens.Prelude.{
  ◌+◌, ◌≡◌, ◌∷◌, ◌++◌, zero, suc, [], none, refl, Each, List, Text, ℕ, arith, Bool-cases, inl, inr,
  Each-append,
}
use stellar_xdr_lens.Errors.{Result, ok, err, stuck}
use stellar_xdr_lens.Wasm.Module.{WasmExport, WasmModule, WasmImport}
use stellar_xdr_lens.Wasm.Parse.{read_sections, section_parsed, section_read, read_section}
use stellar_xdr_lens.Wasm.Sections.{
  count_functions, parse_section, read_export, read_vector, section_cases, parse_custom,
  parse_types, read_name, update, parse_imports, is_function_import, parse_functions, parse_exports,
  parse_code, read_custom, read_function_type, read_import, read_body,
}
use stellar_xdr_lens.Wasm.Gives.{Gives, >>=-Gives, Whenever, on_ok, on_err, on_stuck, Gives-repeat}
use stellar_xdr_lens.Wasm.Leb.{read_u32_leb128}
use stellar_xdr_lens.Wasm.Total.{switch-holds}

-- An export as it is read: not linked yet.
abbrev pub Unlinked : WasmExport → Type 0
Unlinked e = (e.export_signature ≡ []) × (e.export_type ≡ none)

Gives-read_export : Gives Unlinked read_export
unfolding read_export
Gives-read_export = >>=-Gives Unlinked read_name (λ n.
    >>=-Gives Unlinked read_byte
      (λ kind. >>=-Gives Unlinked read_u32_leb128 (λ idx r. on_ok (refl, refl))))

Gives-read_vector {ℓ κ} :
    {A : Type ℓ} {P : A → Type κ} {item : ℕ → Reader A}
    → ((j : ℕ) → Gives P (item j))
    → Gives (Each P) (read_vector item)
unfolding read_vector
Gives-read_vector {P = P} {item = item} h =
    >>=-Gives (Each P) (malformed read_u32_leb128) (λ n. Gives-repeat n 0 h)

-- A module whose sections have been read, but whose exports have not been linked.
abbrev pub IsRead : WasmModule → Type 0
IsRead m =
    (m.version ≡ 1) × (m.imported_func_count ≡ count_functions m.imports) × Each Unlinked m.exports

count_functions-append :
    (xs ys : List WasmImport) → count_functions (xs ++ ys) ≡ count_functions xs + count_functions ys
unfolding count_functions
count_functions-append [] ys = omega arith
count_functions-append (x ∷ xs) ys = elim (Bool-cases (is_function_import x)) [
  | inl e ↦ rw e (omega (arith, count_functions-append xs ys))
  | inr e ↦ rw e (count_functions-append xs ys)
]

update-Whenever {ℓ κ} :
    {A : Type ℓ} {P : A → Type κ} (f : A → WasmModule) {out : Result (A × Text)}
    → Whenever (λ p. P p.0) out
    → ((a : A) → P a → IsRead (f a))
    → Whenever IsRead (update out f)
update-Whenever f (on_ok {a = (a, rest)} p) h = on_ok (h a p)
update-Whenever f on_err h = on_err
update-Whenever f on_stuck h = on_stuck

update-IsRead {ℓ} :
    {A : Type ℓ} (out : Result (A × Text)) (f : A → WasmModule)
    → ((a : A) → IsRead (f a))
    → Whenever IsRead (update out f)
update-IsRead (ok (a, rest)) f h = on_ok (h a)
update-IsRead (err e) f h = on_err
update-IsRead stuck f h = on_stuck

parse_section-IsRead :
    (m : WasmModule) (payload : Text) (id : ℕ)
    → IsRead m
    → Whenever IsRead (parse_section m payload id)
unfolding parse_section section_cases parse_custom parse_types parse_imports parse_functions
    parse_exports parse_code
parse_section-IsRead m payload id h =
    let (v, count, es) = h in
    switch-holds {A = Result WasmModule} (λ out. Whenever IsRead out) (section_cases m payload) id
      (on_ok h)
      (
        update-IsRead (read_custom payload) _ (λ _. h),
        (
          update-IsRead (read_vector (λ _. read_function_type) payload) _ (λ _. h),
          (
            update-IsRead (read_vector (λ _. read_import m.types) payload) _
                (λ imps. (v, omega (arith, count, count_functions-append m.imports imps), es)),
            (
              update-IsRead (read_vector (λ _. read_u32_leb128) payload) _ (λ _. h),
              (
                update-Whenever _ (Gives-read_vector (λ _. Gives-read_export) payload)
                    (λ new hes. (v, count, Each-append es hes)),
                (
                  update-IsRead (read_vector (read_body m.imported_func_count) payload) _ (λ _. h),
                  tt,
                ),
              ),
            ),
          ),
        ),
      )

section_parsed-IsRead :
    {P : WasmModule → Type 0} (go_on : WasmModule → Text → Result WasmModule) (rest : Text)
    {out : Result WasmModule}
    → Whenever IsRead out
    → ((m : WasmModule) → IsRead m → Whenever P (go_on m rest))
    → Whenever P (section_parsed go_on rest out)
unfolding section_parsed
section_parsed-IsRead go_on rest (on_ok {a = m} p) h = h m p
section_parsed-IsRead go_on rest on_err h = on_err
section_parsed-IsRead go_on rest on_stuck h = on_stuck

section_read-IsRead :
    {P : WasmModule → Type 0} (go_on : WasmModule → Text → Result WasmModule) (m : WasmModule)
    (out : Result ((ℕ × Text) × Text))
    → IsRead m
    → ((m' : WasmModule) (rest : Text) → IsRead m' → Whenever P (go_on m' rest))
    → Whenever P (section_read go_on m out)
unfolding section_read
section_read-IsRead go_on m (ok ((id, payload), rest)) p h =
    section_parsed-IsRead go_on rest (parse_section-IsRead m payload id p) (λ m' p'. h m' rest p')
section_read-IsRead go_on m (err e) p h = on_err
section_read-IsRead go_on m stuck p h = on_stuck

pub read_sections-IsRead :
    (fuel : ℕ) (m : WasmModule) (r : Text) → IsRead m → Whenever IsRead (read_sections fuel m r)
unfolding read_sections
read_sections-IsRead fuel m [] p = on_ok p
read_sections-IsRead zero m (b ∷ r) p = on_stuck
read_sections-IsRead (suc fuel) m (b ∷ r) p =
    section_read-IsRead (read_sections fuel) m (read_section (b ∷ r)) p
      (λ m' rest p'. read_sections-IsRead fuel m' rest p')
