-- ===== src/Wasm/Total.antt =====
-- ParseWASM ends on every input.
use stellar_xdr_lens.Wasm.Reader.{Reader}
use stellar_xdr_lens.Prelude.{
  ◌+◌, ◌∷◌, ◌==◌, [], ℕ, List, All, arith, if-holds, Text, ◌≤◌, zero, suc, length, ltb, not,
  text_eq, take, drop,
}
use stellar_xdr_lens.Wasm.Module.{switch, WasmFunctionType, WasmModule, WasmFunctionBody}
use stellar_xdr_lens.Wasm.Sections.{
  read_custom, read_export, read_form, read_function_type, read_import, read_import_rest, read_name,
  read_val_types, read_vector, skip_limits, read_import_function, skip_table, skip_memory,
  skip_global, import_cases, kept_body, parse_section, read_body, section_cases, update,
  parse_custom, parse_types, parse_imports, parse_functions, parse_exports, parse_code,
}
use stellar_xdr_lens.Wasm.Takes.{
  Takes, >>=-Takes, not_taken, Takes-done, Takes-malformed, Takes-read_byte, Takes-read_u32_leb128,
  Taken, Takes-read_bytes, Takes-repeat, taken, >>-Takes, Takes-less,
}
use stellar_xdr_lens.Errors.{
  Result, invalid_wasm_magic, unsupported_wasm_version, Ends, ends_err, ends_ok,
}
use stellar_xdr_lens.Wasm.Parse.{
  linked, parse_wasm, read_section, read_sections, section_parsed, section_read, link_exports,
  wasm_magic, uint32_le, empty_module,
}
use stellar_xdr_lens.Wasm.TotalCode.{disassemble_function_body-Taken}

-- A property of the default and of every case is one of the switch.
pub switch-holds {ℓ κ} :
    {A : Type ℓ} (P : A → Type κ) (cases : List (ℕ × A)) {otherwise : A} (k : ℕ)
    → P otherwise
    → All (λ c. P c.1) cases
    → P (switch cases otherwise k)
unfolding switch
switch-holds P [] k h _ = h
switch-holds P ((c, a) ∷ cases) k h (hc, hs) = if-holds P (k == c) hc (switch-holds P cases k h hs)

Takes-read_name : Takes 1 read_name
unfolding read_name
Takes-read_name = >>=-Takes 1 0 Takes-read_u32_leb128 Takes-read_bytes

Takes-skip_limits : Takes 2 skip_limits
unfolding skip_limits
Takes-skip_limits = >>=-Takes 1 1 Takes-read_byte (λ flags.
    >>=-Takes 1 0 Takes-read_u32_leb128 (λ min.
      if-holds {A = Reader (Unit {0})} (λ m. Takes 0 m) (flags == 1)
        (Takes-less (>>=-Takes 1 0 Takes-read_u32_leb128 (λ max. Takes-done tt))) (Takes-done tt)))

Takes-read_custom : Takes 0 read_custom
unfolding read_custom
Takes-read_custom =
    Takes-less (>>=-Takes 1 0 (Takes-malformed Takes-read_name) (λ n rest. taken (omega arith)))

Takes-read_form : Takes 1 read_form
unfolding read_form
Takes-read_form [] = not_taken
Takes-read_form (form ∷ r) =
    if-holds {A = Result (Unit {0} × Text)} (λ out. Taken 1 (form ∷ r) out) (form == 0x60)
      (taken {rest = r} (omega arith)) not_taken

Takes-read_val_types : Takes 1 read_val_types
unfolding read_val_types
Takes-read_val_types =
    >>=-Takes 1 0 Takes-read_u32_leb128 (λ n. Takes-repeat n 0 (λ _. Takes-less Takes-read_byte))

Takes-read_function_type : Takes 3 read_function_type
unfolding read_function_type
Takes-read_function_type = >>-Takes 1 2 Takes-read_form (
    >>=-Takes 1 1 Takes-read_val_types
      (λ params. >>=-Takes 1 0 Takes-read_val_types (λ results. Takes-done _)))

Takes-read_import_rest :
    (ts : List WasmFunctionType) (kind : ℕ) → Takes 0 (read_import_rest ts kind)
unfolding read_import_rest import_cases read_import_function skip_table skip_memory skip_global
Takes-read_import_rest ts kind =
    let b = Takes-malformed Takes-read_byte in
    let l = Takes-malformed Takes-skip_limits in
    let ends = Takes-done (0, []) in
    switch-holds {A = Reader (ℕ × Text)} (λ m. Takes 0 m) (import_cases ts) kind ends
      (
        Takes-less (>>=-Takes 1 0 Takes-read_u32_leb128 (λ t. Takes-done _)),
        (
          Takes-less (>>-Takes 1 2 b (>>-Takes 2 0 l ends)),
          (
            Takes-less (>>-Takes 2 0 l ends),
            (Takes-less (>>-Takes 1 1 b (>>-Takes 1 0 b ends)), tt),
          ),
        ),
      )

Takes-read_import : (ts : List WasmFunctionType) → Takes 0 (read_import ts)
unfolding read_import
Takes-read_import ts = Takes-less (
    >>=-Takes 1 2 Takes-read_name (λ module_name. >>=-Takes 1 1 Takes-read_name (λ field_name.
      >>=-Takes 1 0 Takes-read_byte
        (λ kind. >>=-Takes 0 0 (Takes-read_import_rest ts kind) (λ rest. Takes-done _)))))

Takes-read_export : Takes 0 read_export
unfolding read_export
Takes-read_export = Takes-less (
    >>=-Takes 1 2 Takes-read_name (λ n.
      >>=-Takes 1 1 Takes-read_byte
        (λ kind. >>=-Takes 1 0 Takes-read_u32_leb128 (λ idx. Takes-done _))))

Takes-read_vector {ℓ} :
    {A : Type ℓ} {item : ℕ → Reader A} → ((j : ℕ) → Takes 0 (item j)) → Takes 0 (read_vector item)
unfolding read_vector
Takes-read_vector h =
    Takes-less
      (>>=-Takes 1 0 (Takes-malformed Takes-read_u32_leb128) (λ count. Takes-repeat count 0 h))

kept_body-Takes :
    {body_bytes : Text} {out : Result (WasmFunctionBody × Text)}
    → Taken 0 body_bytes out
    → Takes 0 (kept_body out)
unfolding kept_body
kept_body-Takes (taken h) = Takes-done _
kept_body-Takes not_taken = Takes-done []

Takes-read_body : (imported i : ℕ) → Takes 0 (read_body imported i)
unfolding read_body
Takes-read_body imported i = Takes-less (
    >>=-Takes 1 0 Takes-read_u32_leb128 (λ size.
      >>=-Takes 0 0 (Takes-read_bytes size)
        (λ body_bytes. kept_body-Takes (disassemble_function_body-Taken _ body_bytes))))

update-Ends {ℓ} :
    {A : Type ℓ} {k : ℕ} {r : Text} {out : Result (A × Text)} (f : A → WasmModule)
    → Taken k r out
    → Ends (update out f)
update-Ends f (taken h) = ends_ok _
update-Ends f not_taken = ends_err _

parse_section-Ends : (m : WasmModule) (payload : Text) (id : ℕ) → Ends (parse_section m payload id)
unfolding parse_section section_cases parse_custom parse_types parse_imports parse_functions
    parse_exports parse_code
parse_section-Ends m payload id =
    switch-holds {A = Result WasmModule} (λ out. Ends out) (section_cases m payload) id (ends_ok m)
      (
        update-Ends _ (Takes-read_custom payload),
        (
          update-Ends _ (Takes-read_vector (λ _. Takes-less Takes-read_function_type) payload),
          (
            update-Ends _ (Takes-read_vector (λ _. Takes-read_import m.types) payload),
            (
              update-Ends _ (Takes-read_vector (λ _. Takes-less Takes-read_u32_leb128) payload),
              (
                update-Ends _ (Takes-read_vector (λ _. Takes-read_export) payload),
                (
                  update-Ends _ (Takes-read_vector (Takes-read_body m.imported_func_count) payload),
                  tt,
                ),
              ),
            ),
          ),
        ),
      )

Takes-read_section : Takes 2 read_section
unfolding read_section
Takes-read_section = >>=-Takes 1 1 (Takes-malformed Takes-read_byte) (λ id.
    >>=-Takes 1 0 (Takes-malformed Takes-read_u32_leb128)
      (λ size. >>=-Takes 0 0 (Takes-malformed (Takes-read_bytes size)) (λ payload. Takes-done _)))

section_parsed-Ends :
    (go_on : WasmModule → Text → Result WasmModule) (rest : Text) {out : Result WasmModule}
    → Ends out
    → ((m : WasmModule) → Ends (go_on m rest))
    → Ends (section_parsed go_on rest out)
unfolding section_parsed
section_parsed-Ends go_on rest (ends_ok m) h = h m
section_parsed-Ends go_on rest (ends_err e) h = ends_err e

section_read-Ends :
    (go_on : WasmModule → Text → Result WasmModule) (m : WasmModule) {r : Text}
    {out : Result ((ℕ × Text) × Text)}
    → Taken 2 r out
    → ((m' : WasmModule) (rest : Text) → 2 + length rest ≤ length r → Ends (go_on m' rest))
    → Ends (section_read go_on m out)
unfolding section_read
section_read-Ends go_on m (taken {a = (id, payload)} {rest = rest} lt) h =
    section_parsed-Ends go_on rest (parse_section-Ends m payload id) (λ m'. h m' rest lt)
section_read-Ends go_on m not_taken h = ends_err _

read_sections-Ends :
    (fuel : ℕ) (m : WasmModule) (r : Text) → length r ≤ fuel → Ends (read_sections fuel m r)
unfolding read_sections
read_sections-Ends fuel m [] h = ends_ok m
read_sections-Ends zero m (b ∷ r) h = absurd (omega arith)
read_sections-Ends (suc fuel) m (b ∷ r) h =
    section_read-Ends (read_sections fuel) m (Takes-read_section (b ∷ r))
      (λ m' rest lt. read_sections-Ends fuel m' rest (omega arith))

linked-Ends : {out : Result WasmModule} → Ends out → Ends (linked out)
unfolding linked
linked-Ends (ends_ok m) = ends_ok (link_exports m)
linked-Ends (ends_err e) = ends_err e

-- ParseWASM returns a module or an error on every input.
pub parse_wasm-Ends : (bs : Text) → Ends (parse_wasm bs)
unfolding parse_wasm
parse_wasm-Ends bs =
    let bad = ends_err (invalid_wasm_magic ∷ []) in
    if-holds Ends (ltb (length bs) 8) bad (
      if-holds Ends (not (text_eq (take 4 bs) wasm_magic)) bad (
        if-holds Ends (not (uint32_le (take 4 (drop 4 bs)) == 1))
          (ends_err (unsupported_wasm_version ∷ []))
          (linked-Ends
            (read_sections-Ends (length (drop 8 bs)) (empty_module 1) (drop 8 bs) (omega arith)))))
