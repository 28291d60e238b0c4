-- ===== src/Wasm/Reader.antt =====
-- bytes.Reader as the bytes that are left, and the reads of wasm_disasm.go as actions on it. After an
-- error nobody reads on, so an error carries no position.
use stellar_xdr_lens.Prelude.{◌+◌, ◌∷◌, zero, suc, [], none, some, Text, ℕ, List, take, drop}
use stellar_xdr_lens.Errors.{Error, Result, ok, err, eof, malformed_wasm, stuck}
use stellar_xdr_lens.Stream.Parser.{read_full_error}

abbrev pub Reader {ℓ} : Type ℓ → Type ℓ
Reader A = Text → Result (A × Text)

abbrev pub continue_with {ℓ κ} :
    {A : Type ℓ} {B : Type κ} → Result (A × Text) → (A → Reader B) → Result (B × Text)
continue_with (ok (a, rest)) f = f a rest
continue_with (err e) f = err e
continue_with stuck f = stuck

infixl 5 ◌>>=◌ ◌>>◌
abbrev pub ◌>>=◌ {ℓ κ} : {A : Type ℓ} {B : Type κ} → Reader A → (A → Reader B) → Reader B
(m >>= f) r = continue_with (m r) f

abbrev pub ◌>>◌ {ℓ κ} : {A : Type ℓ} {B : Type κ} → Reader A → Reader B → Reader B
(m >> k) r = continue_with (m r) (λ _. k)

abbrev pub done {ℓ} : {A : Type ℓ} → A → Reader A
done a r = ok (a, r)

abbrev pub fail {ℓ} : {A : Type ℓ} → Error → Reader A
fail e r = err e

abbrev pub malformed_result {ℓ} : {A : Type ℓ} → Result A → Result A
malformed_result (ok a) = ok a
malformed_result (err e) = err (malformed_wasm ∷ e)
malformed_result stuck = stuck

-- fmt.Errorf("%w: ...: %w", ErrMalformedWASM, err) on the error of a read.
abbrev pub malformed {ℓ} : {A : Type ℓ} → Reader A → Reader A
malformed m r = malformed_result (m r)

unfoldable pub read_byte : Reader ℕ
read_byte [] = err (eof ∷ [])
read_byte (b ∷ r) = ok (b, r)

-- io.ReadFull into a buffer of n bytes.
unfoldable pub read_bytes : ℕ → Reader Text
unfolding read_full_error
read_bytes n r = elim (read_full_error n r) [
  | none ↦ ok (take n r, drop n r)
  | some s ↦ err (s ∷ [])
]

-- The loops `for i := uint32(0); i < count; i++`, whose rounds each append one item.
unfoldable pub repeat {ℓ} : {A : Type ℓ} → ℕ → (ℕ → Reader A) → ℕ → Reader (List A)
repeat zero item i = done []
repeat (suc n) item i = do x ← item i; xs ← repeat n item (i + 1); done (x ∷ xs)
