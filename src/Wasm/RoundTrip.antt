-- ===== src/Wasm/RoundTrip.antt =====
-- The sections of a module behind a writer of the format.
use stellar_xdr_lens.Wasm.Reader.{
  ◌>>=◌, read_bytes, read_byte, Reader, continue_with, malformed, malformed_result, done,
}
use stellar_xdr_lens.Prelude.{
  ◌^◌, ◌≤◌, ◌<◌, ◌≡◌, ◌∷◌, ◌++◌, zero, suc, [], refl, Text, length, List, ℕ, All, arith,
  length-append, take-append, drop-append, ◌∙◌, ap, append_assoc, append-nil, sym, ltb-false,
}
use stellar_xdr_lens.Wasm.Parse.{
  parse_wasm, read_section, read_sections, section_parsed, linked, empty_module, section_read,
  wasm_magic,
}
use stellar_xdr_lens.Wasm.Module.{WasmModule}
use stellar_xdr_lens.Wasm.Sections.{parse_section}
use stellar_xdr_lens.Wasm.Write.{concat_map, put_module, put_section}
use stellar_xdr_lens.Errors.{Result, ok, err, stuck}
use stellar_xdr_lens.Stream.ReadFull.{read_full_error-le}
use stellar_xdr_lens.Wasm.Leb.RoundTrip.{put_u32_leb128, read_u32_leb128-put}
use stellar_xdr_lens.Wasm.Leb.{read_u32_leb128}

-- The sections parsed one after the other, each into the module that those before it have made.
unfoldable pub parse_all : WasmModule → List (ℕ × Text) → Result WasmModule
unfolding section_parsed
parse_all m [] = ok m
parse_all m ((id, payload) ∷ sections) =
    section_parsed (λ m' _. parse_all m' sections) [] (parse_section m payload id)

abbrev pub IsShort : Text → Type 0
IsShort s = length s < 2 ^ 32

-- The reading takes exactly these bytes, whatever follows them, and gives the value.
pub data Reads {ℓ} {A : Type ℓ} (m : Reader A) (xs : Text) (a : A) : Type ℓ where
  reads : ((rest : Text) → m (xs ++ rest) ≡ ok (a, rest)) → Reads m xs a

pub all_read {ℓ} :
    {A : Type ℓ} {m : Reader A} {xs : Text} {a : A} → Reads m xs a → m xs ≡ ok (a, [])
all_read {m = m} {xs = xs} (reads h) = ap m (sym (append-nil xs)) ∙ h []

pub Reads-done {ℓ} : {A : Type ℓ} (a : A) → Reads (done a) [] a
Reads-done a = reads (λ rest. refl)

module _ {ℓ κ} {A : Type ℓ} {B : Type κ} where
  pub >>=-Reads :
      {m : Reader A} (f : A → Reader B) {xs ys : Text} {a : A} {b : B}
      → Reads m xs a
      → Reads (f a) ys b
      → Reads (m >>= f) (xs ++ ys) b
  >>=-Reads {m = m} f {xs = xs} {ys = ys} (reads h) (reads k) = reads (λ rest.
      ap (λ r. continue_with (m r) f) (append_assoc xs ys rest)
      ∙ ap (λ o. continue_with o f) (h (ys ++ rest))
      ∙ k rest)

-- The last reading of a chain, and the value that is made of what it gives.
pub Reads-value {ℓ κ} :
    {A : Type ℓ} {B : Type κ} {m : Reader A} {xs : Text} {a : A} (g : A → B)
    → Reads m xs a
    → Reads (m >>= λ x. done (g x)) xs (g a)
Reads-value g h = rw append-nil at (>>=-Reads (λ x. done (g x)) h (Reads-done (g _)))

pub Reads-malformed {ℓ} :
    {A : Type ℓ} {m : Reader A} {xs : Text} {a : A} → Reads m xs a → Reads (malformed m) xs a
Reads-malformed (reads h) = reads (λ rest. ap malformed_result (h rest))

pub Reads-read_byte : (b : ℕ) → Reads read_byte (b ∷ []) b
unfolding read_byte
Reads-read_byte b = reads (λ rest. refl)

pub Reads-read_u32_leb128 : (n : ℕ) → n < 2 ^ 32 → Reads read_u32_leb128 (put_u32_leb128 n) n
Reads-read_u32_leb128 n h = reads (λ rest. read_u32_leb128-put n rest h)

read_bytes-prefix :
    (n : ℕ) (xs rest : Text) → length xs ≡ n → read_bytes n (xs ++ rest) ≡ ok (xs, rest)
unfolding read_bytes
read_bytes-prefix n xs rest h =
    let room : n ≤ length (xs ++ rest) = omega (arith, length-append xs rest) in
    rw (
      read_bytes,
      read_full_error-le n (xs ++ rest) room,
      take-append n xs rest h,
      drop-append n xs rest h,
    )

pub Reads-read_bytes : (xs : Text) → Reads (read_bytes (length xs)) xs xs
Reads-read_bytes xs = reads (λ rest. read_bytes-prefix (length xs) xs rest refl)

Reads-read_section :
    (id : ℕ) (payload : Text)
    → IsShort payload
    → Reads read_section (put_section (id, payload)) (id, payload)
unfolding read_section put_section
Reads-read_section id payload h =
    let n = put_u32_leb128 (length payload) in
    >>=-Reads _ {xs = id ∷ []} {ys = n ++ payload} (Reads-malformed (Reads-read_byte id)) (
      >>=-Reads _ (Reads-malformed (Reads-read_u32_leb128 (length payload) h))
        (Reads-value (λ p. (id, p)) (Reads-malformed (Reads-read_bytes payload))))

one_round :
    (fuel : ℕ) (m : WasmModule) (id : ℕ) (payload rest : Text)
    → read_sections (suc fuel) m (put_section (id, payload) ++ rest)
      ≡ section_read (read_sections fuel) m (read_section (put_section (id, payload) ++ rest))
unfolding read_sections put_section
one_round fuel m id payload rest = refl

-- Bytes that are there are read as the next section.
next_section :
    (fuel : ℕ) (m : WasmModule) (id : ℕ) (payload rest : Text)
    → IsShort payload
    → read_sections (suc fuel) m (put_section (id, payload) ++ rest)
      ≡ section_parsed (read_sections fuel) rest (parse_section m payload id)
unfolding section_parsed section_read
next_section fuel m id payload rest h = elim (Reads-read_section id payload h) [
  | reads k ↦ one_round fuel m id payload rest ∙ ap (section_read (read_sections fuel) m) (k rest)
]

length-put_section : (id : ℕ) (payload : Text) → 0 < length (put_section (id, payload))
unfolding put_section
length-put_section id payload = omega arith

section_parsed-same :
    (f g : WasmModule → Text → Result WasmModule) (r s : Text) (out : Result WasmModule)
    → ((m : WasmModule) → f m r ≡ g m s)
    → section_parsed f r out ≡ section_parsed g s out
unfolding section_parsed
section_parsed-same f g r s (ok m) h = h m
section_parsed-same f g r s (err e) h = refl
section_parsed-same f g r s stuck h = refl

read_sections-put :
    (fuel : ℕ) (m : WasmModule) (sections : List (ℕ × Text))
    → All (λ s. IsShort s.1) sections
    → length (concat_map put_section sections) ≤ fuel
    → read_sections fuel m (concat_map put_section sections) ≡ parse_all m sections
unfolding read_sections concat_map parse_all
read_sections-put fuel m [] _ h = refl
read_sections-put zero m ((id, payload) ∷ sections) hs h = absurd (
    omega (
      arith,
      h,
      length-append (put_section (id, payload)) (concat_map put_section sections),
      length-put_section id payload,
    ))
read_sections-put (suc fuel) m ((id, payload) ∷ sections) (short, hs) h =
    let room = length-append (put_section (id, payload)) (concat_map put_section sections) in
    let pos = length-put_section id payload in
    next_section fuel m id payload (concat_map put_section sections) short
    ∙ section_parsed-same (read_sections fuel) (λ m' _. parse_all m' sections) _ []
        (parse_section m payload id)
        (λ m'. read_sections-put fuel m' sections hs (omega (arith, h, room, pos)))

-- ParseWASM on the magic bytes, version 1 and well-framed sections parses each section into the module
-- that those before it have made, and then links the exports.
pub parse_wasm-put :
    (sections : List (ℕ × Text))
    → All (λ s. IsShort s.1) sections
    → parse_wasm (put_module sections) ≡ linked (parse_all (empty_module 1) sections)
unfolding parse_wasm put_module
parse_wasm-put sections h =
    let written = concat_map put_section sections in
    rw (ltb-false (length (wasm_magic ++ (1 ∷ 0 ∷ 0 ∷ 0 ∷ written))) 8 (omega arith))
      (ap linked (read_sections-put (length written) (empty_module 1) sections h (omega arith)))
