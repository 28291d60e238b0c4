-- ===== src/Wasm/Takes.antt =====
-- How many bytes the reads of wasm_disasm.go take.
use stellar_xdr_lens.Wasm.Leb.Groups.{a_number, cut_off, too_long, last_group, next_group}
use stellar_xdr_lens.Wasm.Reader.{
  ◌>>◌, ◌>>=◌, malformed, malformed_result, read_byte, read_bytes, repeat,
}
use stellar_xdr_lens.Prelude.{
  ◌+◌, ◌≤◌, ℕ, Text, arith, length, ◌<◌, ◌∷◌, zero, suc, [], Option-cases, inl, length-drop, inr,
  length-append,
}
use stellar_xdr_lens.Wasm.Reader.{done, Reader, fail, continue_with}
use stellar_xdr_lens.Errors.{Error, Result, ok, err}
use stellar_xdr_lens.Wasm.Leb.{read_u32_leb128}
use stellar_xdr_lens.Wasm.Leb.Groups.{
  Decodes, IsGroups, last_group, read_u32_leb128-Decodes, next_group,
}
use stellar_xdr_lens.Stream.Parser.{read_full_error}

-- A reading that either fails or takes `k` bytes at least from `r`; it never runs out of fuel.
pub data Taken {ℓ} {A : Type ℓ} (k : ℕ) (r : Text) : Result (A × Text) → Type ℓ where
  taken : {a : A} {rest : Text} → k + length rest ≤ length r → Taken k r (ok (a, rest))
  not_taken : {e : Error} → Taken k r (err e)

abbrev pub Takes {ℓ} : {A : Type ℓ} → ℕ → Reader A → Type ℓ
Takes k m = (r : Text) → Taken k r (m r)

pub Takes-done {ℓ} : {A : Type ℓ} (a : A) → Takes 0 (done a)
Takes-done a r = taken (omega arith)

pub Takes-fail {ℓ} : {A : Type ℓ} (k : ℕ) (e : Error) → Takes {A = A} k (fail e)
Takes-fail k e r = not_taken

pub Taken-weaken {ℓ} :
    {A : Type ℓ} {j k : ℕ} {r s : Text} {out : Result (A × Text)}
    → j + length s ≤ k + length r
    → Taken k s out
    → Taken j r out
Taken-weaken h (taken k) = taken (omega (arith, h, k))
Taken-weaken h not_taken = not_taken

module _ {ℓ κ} {A : Type ℓ} {B : Type κ} where
  -- What follows is only asked of the inputs that the first reading can leave.
  pub continue_with-Taken :
      {j k : ℕ} {r : Text} {out : Result (A × Text)} {f : A → Reader B}
      → Taken j r out
      → ((a : A) (rest : Text) → j + length rest ≤ length r → Taken k rest (f a rest))
      → Taken (j + k) r (continue_with out f)
  continue_with-Taken (taken {a = a} {rest = rest} h) hf =
      Taken-weaken (omega (arith, h)) (hf a rest h)
  continue_with-Taken not_taken hf = not_taken

  pub >>=-Takes :
      (j k : ℕ) {m : Reader A} {f : A → Reader B}
      → Takes j m
      → ((a : A) → Takes k (f a))
      → Takes (j + k) (m >>= f)
  >>=-Takes j k hm hf r = continue_with-Taken (hm r) (λ a rest _. hf a rest)

  pub >>-Takes :
      (j k : ℕ) {m : Reader A} {n : Reader B} → Takes j m → Takes k n → Takes (j + k) (m >> n)
  >>-Takes j k hm hn = >>=-Takes j k hm (λ _. hn)

malformed_result-Taken {ℓ} :
    {A : Type ℓ} {k : ℕ} {r : Text} {out : Result (A × Text)}
    → Taken k r out
    → Taken k r (malformed_result out)
malformed_result-Taken (taken h) = taken h
malformed_result-Taken not_taken = not_taken

module _ {ℓ} {A : Type ℓ} where
  pub Takes-less : {k : ℕ} {m : Reader A} → Takes k m → Takes 0 m
  Takes-less h r = Taken-weaken (omega arith) (h r)

  pub Takes-malformed : {k : ℕ} {m : Reader A} → Takes k m → Takes k (malformed m)
  Takes-malformed h r = malformed_result-Taken (h r)

  pub Takes-repeat :
      (n : ℕ) {item : ℕ → Reader A} (i : ℕ)
      → ((j : ℕ) → Takes 0 (item j))
      → Takes 0 (repeat n item i)
  unfolding repeat
  Takes-repeat zero i h = Takes-done []
  Takes-repeat (suc n) i h =
      >>=-Takes 0 0 (h i)
        (λ x. >>=-Takes 0 0 (Takes-repeat n (i + 1) h) (λ xs. Takes-done (x ∷ xs)))

pub Takes-read_byte : Takes 1 read_byte
unfolding read_byte
Takes-read_byte [] = not_taken
Takes-read_byte (b ∷ r) = taken (omega arith)

pub Takes-read_bytes : (n : ℕ) → Takes 0 (read_bytes n)
unfolding read_bytes
Takes-read_bytes n r = elim (Option-cases (read_full_error n r)) [
  | inl e ↦ rw (read_bytes, e) (taken (omega (arith, length-drop n r)))
  | inr (s, e) ↦ rw (read_bytes, e) not_taken
]

IsGroups-positive : {gs : Text} → IsGroups gs → 0 < length gs
IsGroups-positive (last_group h) = omega arith
IsGroups-positive (next_group h k) = omega arith

Decodes-Taken :
    {f : ℕ → ℕ} {n : ℕ} {r : Text} {out : Result (ℕ × Text)} → Decodes f n r out → Taken 1 r out
Decodes-Taken (a_number {gs = gs} rest k le q) =
    taken (omega (arith, IsGroups-positive k, length-append gs rest))
Decodes-Taken (cut_off k lt) = not_taken
Decodes-Taken (too_long rest k q) = not_taken

pub Takes-read_u32_leb128 : Takes 1 read_u32_leb128
Takes-read_u32_leb128 r = Decodes-Taken (read_u32_leb128-Decodes r)
