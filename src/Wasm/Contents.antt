-- ===== src/Wasm/Contents.antt =====
-- Types, functions and exports behind a writer of the format.
use stellar_xdr_lens.Wasm.Reader.{repeat, Reader, read_byte}
use stellar_xdr_lens.Prelude.{
  ◌+◌, ◌^◌, ◌<◌, ◌≡◌, ◌∷◌, [], none, refl, List, Text, ℕ, All, length, map, ap, ◌∙◌, ◌++◌,
}
use stellar_xdr_lens.Wasm.Module.{WasmFunctionType, WasmExport, WasmModule}
use stellar_xdr_lens.Wasm.Sections.{
  read_export, read_function_type, read_name, read_val_types, read_vector, read_form, parse_section,
  section_cases, parse_types, parse_functions, parse_exports, update,
}
use stellar_xdr_lens.Wasm.Write.{
  NewExport, put_export, put_function_type, put_name, put_vector, concat_map, put_byte,
  put_contents, put_module,
}
use stellar_xdr_lens.Wasm.RoundTrip.{
  Reads, >>=-Reads, Reads-done, Reads-malformed, Reads-read_byte, Reads-read_u32_leb128,
  Reads-read_bytes, IsShort, Reads-value, parse_all, reads, parse_wasm-put, all_read,
}
use stellar_xdr_lens.Wasm.Leb.RoundTrip.{put_u32_leb128}
use stellar_xdr_lens.Wasm.Parse.{empty_module, linked, parse_wasm, link_exports, section_parsed}
use stellar_xdr_lens.Errors.{ok}
use stellar_xdr_lens.Wasm.Leb.{read_u32_leb128}

abbrev pub IsWord : ℕ → Type 0
IsWord n = n < 2 ^ 32

module _ {ℓ κ ι} {A : Type ℓ} {B : Type κ} (P : A → Type ι) (val : A → B) (enc : A → Text) where
  Reads-repeat :
      (item : ℕ → Reader B) (xs : List A) (i : ℕ)
      → ((j : ℕ) (x : A) → P x → Reads (item j) (enc x) (val x))
      → All P xs
      → Reads (repeat (length xs) item i) (concat_map enc xs) (map val xs)
  unfolding repeat concat_map
  Reads-repeat item [] i h _ = Reads-done []
  Reads-repeat item (x ∷ xs) i h (p, ps) =
      >>=-Reads _ (h i x p) (Reads-value (λ ys. val x ∷ ys) (Reads-repeat item xs (i + 1) h ps))

  Reads-read_vector :
      (item : ℕ → Reader B) (xs : List A)
      → ((j : ℕ) (x : A) → P x → Reads (item j) (enc x) (val x))
      → All P xs
      → IsWord (length xs)
      → Reads (read_vector item) (put_vector enc xs) (map val xs)
  unfolding read_vector put_vector
  Reads-read_vector item xs h ps short =
      >>=-Reads _ (Reads-malformed (Reads-read_u32_leb128 (length xs) short))
        (Reads-repeat item xs 0 h ps)

map_id {ℓ} : {A : Type ℓ} (xs : List A) → map (λ x. x) xs ≡ xs
map_id [] = refl
map_id (x ∷ xs) = ap (λ l. x ∷ l) (map_id xs)

Reads-read_name : (s : Text) → IsWord (length s) → Reads read_name (put_name s) s
unfolding read_name put_name
Reads-read_name s h = >>=-Reads _ (Reads-read_u32_leb128 (length s) h) (Reads-read_bytes s)

any_bytes : (vs : List ℕ) → All (λ _. Unit {0}) vs
any_bytes [] = tt
any_bytes (v ∷ vs) = (tt, any_bytes vs)

Reads-read_val_types :
    (vs : List ℕ) → IsWord (length vs) → Reads read_val_types (put_vector put_byte vs) vs
unfolding read_val_types put_vector put_byte
Reads-read_val_types vs h =
    let bytes : Reads (repeat (length vs) (λ _. read_byte) 0) (concat_map put_byte vs) vs =
      rw map_id at (
        Reads-repeat (λ _. Unit {0}) (λ v. v) put_byte (λ _. read_byte) vs 0
          (λ _ v _. Reads-read_byte v) (any_bytes vs)) in
    >>=-Reads _ (Reads-read_u32_leb128 (length vs) h) bytes

abbrev pub IsShortType : WasmFunctionType → Type 0
IsShortType ft = IsWord (length ft.params) × IsWord (length ft.results)

Reads-read_form : Reads read_form (0x60 ∷ []) tt
unfolding read_form
Reads-read_form = reads (λ rest. refl)

Reads-read_function_type :
    (ft : WasmFunctionType) → IsShortType ft → Reads read_function_type (put_function_type ft) ft
unfolding read_function_type put_function_type
Reads-read_function_type ft (hp, hr) =
    >>=-Reads _ {xs = 0x60 ∷ []}
      {ys = put_vector put_byte ft.params ++ put_vector put_byte ft.results} Reads-read_form
      (>>=-Reads _ (Reads-read_val_types ft.params hp) (
        Reads-value (λ results. record { params = ft.params; results = results })
          (Reads-read_val_types ft.results hr)))

unfoldable pub to_export : NewExport → WasmExport
to_export (n, kind, idx) = record {
  export_name = n;
  export_kind = kind;
  export_index = idx;
  export_signature = [];
  export_type = none;
}

abbrev pub IsShortExport : NewExport → Type 0
IsShortExport e = IsWord (length e.0) × IsWord e.2

Reads-read_export :
    (e : NewExport) → IsShortExport e → Reads read_export (put_export e) (to_export e)
unfolding read_export put_export to_export
Reads-read_export (n, kind, idx) (hn, hi) = >>=-Reads _ (Reads-read_name n hn) (
    >>=-Reads _ {xs = kind ∷ []} {ys = put_u32_leb128 idx} (Reads-read_byte kind)
      (Reads-value (λ i. to_export (n, kind, i)) (Reads-read_u32_leb128 idx hi)))

-- What is to be written fits the format: every count and length is below 2^32.
pub record IsWritable (ts : List WasmFunctionType) (fs : List ℕ) (es : List NewExport)
    : Type 0 where
  pub types_short : All IsShortType ts
  pub functions_short : All IsWord fs
  pub exports_short : All IsShortExport es
  pub counts_short : IsWord (length ts) × IsWord (length fs) × IsWord (length es)
  pub sections_short : All (λ s. IsShort s.1) (put_contents ts fs es)

-- The module of what was written, before its exports are linked.
unfoldable pub contents : List WasmFunctionType → List ℕ → List NewExport → WasmModule
unfolding empty_module to_export
contents ts fs es = record (empty_module 1) {
  types = ts;
  functions = fs;
  exports = map to_export es;
}

parse_next :
    (m : WasmModule) {m' : WasmModule} (id : ℕ) (payload : Text) (sections : List (ℕ × Text))
    → parse_section m payload id ≡ ok m'
    → parse_all m ((id, payload) ∷ sections) ≡ parse_all m' sections
unfolding parse_all section_parsed
parse_next m id payload sections e = ap (section_parsed (λ m' _. parse_all m' sections) []) e

update-Reads {ℓ} :
    {A : Type ℓ} {m : Reader A} {xs : Text} {a : A} (f : A → WasmModule)
    → Reads m xs a
    → update (m xs) f ≡ ok (f a)
update-Reads f h = ap (λ out. update out f) (all_read h)

parse_types-put :
    (m : WasmModule) (ts : List WasmFunctionType)
    → All IsShortType ts
    → IsWord (length ts)
    → parse_types m (put_vector put_function_type ts) ≡ ok (record m { types = m.types ++ ts })
unfolding parse_types
parse_types-put m ts h short = update-Reads _ (
    rw map_id at (
      Reads-read_vector IsShortType (λ t. t) put_function_type (λ _. read_function_type) ts
        (λ _. Reads-read_function_type) h short))

parse_functions-put :
    (m : WasmModule) (fs : List ℕ)
    → All IsWord fs
    → IsWord (length fs)
    → parse_functions m (put_vector put_u32_leb128 fs)
      ≡ ok (record m { functions = m.functions ++ fs })
unfolding parse_functions
parse_functions-put m fs h short = update-Reads _ (
    rw map_id at (
      Reads-read_vector IsWord (λ f. f) put_u32_leb128 (λ _. read_u32_leb128) fs
        (λ _. Reads-read_u32_leb128) h short))

parse_exports-put :
    (m : WasmModule) (es : List NewExport)
    → All IsShortExport es
    → IsWord (length es)
    → parse_exports m (put_vector put_export es)
      ≡ ok (record m { exports = m.exports ++ map to_export es })
unfolding parse_exports
parse_exports-put m es h short = update-Reads _ (
    Reads-read_vector IsShortExport to_export put_export (λ _. read_export) es
      (λ _. Reads-read_export) h short)

parse_contents :
    {ts : List WasmFunctionType} {fs : List ℕ} {es : List NewExport}
    → IsWritable ts fs es
    → parse_all (empty_module 1) (put_contents ts fs es) ≡ ok (contents ts fs es)
unfolding put_contents contents parse_section section_cases parse_all
parse_contents {ts = ts} {fs = fs} {es = es} h =
    let (nt, nf, ne) = h.counts_short in
    let written : ℕ × Text = (3, put_vector put_u32_leb128 fs) in
    let exported : ℕ × Text = (7, put_vector put_export es) in
    let m : WasmModule = record (empty_module 1) { types = ts } in
    let m' : WasmModule = record m { functions = fs } in
    parse_next (empty_module 1) 1 (put_vector put_function_type ts) (written ∷ exported ∷ [])
      (parse_types-put (empty_module 1) ts h.types_short nt)
    ∙ parse_next m 3 (put_vector put_u32_leb128 fs) (exported ∷ [])
        (parse_functions-put m fs h.functions_short nf)
    ∙ parse_next m' 7 (put_vector put_export es) [] (parse_exports-put m' es h.exports_short ne)

-- A module of function types, functions and exports is parsed back as it was written, its exports
-- linked, if every count and length in it is below 2^32.
pub parse_wasm-contents :
    (ts : List WasmFunctionType) (fs : List ℕ) (es : List NewExport)
    → IsWritable ts fs es
    → parse_wasm (put_module (put_contents ts fs es)) ≡ ok (link_exports (contents ts fs es))
unfolding linked
parse_wasm-contents ts fs es h =
    parse_wasm-put (put_contents ts fs es) h.sections_short ∙ ap linked (parse_contents h)
