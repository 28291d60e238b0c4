-- ===== src/Wasm/Write.antt =====
-- A writer of the binary format, for the sections that the model reads back.
use stellar_xdr_lens.Prelude.{◌∷◌, ◌++◌, [], List, Text, ℕ, length}
use stellar_xdr_lens.Wasm.Leb.RoundTrip.{put_u32_leb128}
use stellar_xdr_lens.Wasm.Module.{WasmFunctionType}
use stellar_xdr_lens.Wasm.Parse.{wasm_magic}

unfoldable pub concat_map {ℓ} : {A : Type ℓ} → (A → Text) → List A → Text
concat_map enc [] = []
concat_map enc (x ∷ xs) = enc x ++ concat_map enc xs

-- A vector: the number of its items, then the items.
unfoldable pub put_vector {ℓ} : {A : Type ℓ} → (A → Text) → List A → Text
put_vector enc xs = put_u32_leb128 (length xs) ++ concat_map enc xs

unfoldable pub put_name : Text → Text
put_name s = put_u32_leb128 (length s) ++ s

unfoldable pub put_byte : ℕ → Text
put_byte b = b ∷ []

unfoldable pub put_function_type : WasmFunctionType → Text
put_function_type ft = 0x60 ∷ (put_vector put_byte ft.params ++ put_vector put_byte ft.results)

-- An export that is to be written: its name, kind and index.
abbrev pub NewExport : Type 0
NewExport = Text × ℕ × ℕ

unfoldable pub put_export : NewExport → Text
put_export (n, kind, idx) = put_name n ++ (kind ∷ put_u32_leb128 idx)

-- The sections of a module with types, functions and exports.
unfoldable pub put_contents : List WasmFunctionType → List ℕ → List NewExport → List (ℕ × Text)
put_contents ts fs es =
    (1, put_vector put_function_type ts)
    ∷ (3, put_vector put_u32_leb128 fs)
    ∷ (7, put_vector put_export es)
    ∷ []

-- A section: its kind, the length of its payload, and the payload.
unfoldable pub put_section : ℕ × Text → Text
put_section (id, payload) = id ∷ (put_u32_leb128 (length payload) ++ payload)

-- The magic bytes, version 1, and the sections.
unfoldable pub put_module : List (ℕ × Text) → Text
put_module sections = wasm_magic ++ (1 ∷ 0 ∷ 0 ∷ 0 ∷ concat_map put_section sections)
