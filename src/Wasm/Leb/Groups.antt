-- ===== src/Wasm/Leb/Groups.antt =====
-- readU32Leb128 against the format's own description: groups of seven bits, all but the last of which
-- are marked by their eighth bit.
use native.Mathlib.Omega.{pow_step}
use mathlib.Core.Path.{fun_ext}
use stellar_xdr_lens.Prelude.{
  ◌+◌, ◌*◌, ◌%◌, ◌^◌, ◌≤◌, ◌<◌, ◌≡◌, ◌∙◌, ◌∷◌, ◌++◌, suc, [], Text, ℕ, arith, each_more, each_none,
  length, Each, Bool-cases, ltb, inl, lt_of_ltb, inr, leb, zero, if◌then◌else◌, refl, le_of_not_ltb,
  leb-true, leb-false, sym,
}
use stellar_xdr_lens.Wasm.Leb.{or_group, u32_rounds, word, read_u32_leb128}
use stellar_xdr_lens.Errors.{Result, ok, err, eof, leb_overflow}
use stellar_xdr_lens.Wasm.Reader.{fail}

-- One number's bytes.
pub data IsGroups : Text → Type 0 where
  last_group : {b : ℕ} → b < 128 → IsGroups (b ∷ [])
  next_group : {b : ℕ} {gs : Text} → 128 ≤ b → IsGroups gs → IsGroups (b ∷ gs)

unfoldable pub groups_value : Text → ℕ
groups_value [] = 0
groups_value (b ∷ gs) = b % 128 + 128 * groups_value gs

abbrev Continues : ℕ → Type 0
Continues b = 128 ≤ b

-- What reading at most `n` groups comes to, on every input: a number, an input that ends within one,
-- or more groups than a number of 32 bits has.
pub data Decodes (f : ℕ → ℕ) : ℕ → Text → Result (ℕ × Text) → Type 0 where
  a_number :
      {n x : ℕ} {gs : Text} (rest : Text)
      → IsGroups gs
      → length gs ≤ n
      → f (groups_value gs) ≡ x
      → Decodes f n (gs ++ rest) (ok (x, rest))
  cut_off :
      {n : ℕ} {gs : Text} → Each Continues gs → length gs < n → Decodes f n gs (err (eof ∷ []))
  too_long :
      {n : ℕ} {gs : Text} (rest : Text)
      → Each Continues gs
      → length gs ≡ n
      → Decodes f n (gs ++ rest) (err (leb_overflow ∷ []))

Decodes-more :
    {f g : ℕ → ℕ} {n : ℕ} {r : Text} {out : Result (ℕ × Text)} (b : ℕ)
    → 128 ≤ b
    → ((v : ℕ) → g (b % 128 + 128 * v) ≡ f v)
    → Decodes f n r out
    → Decodes g (suc n) (b ∷ r) out
unfolding groups_value
Decodes-more b h e (a_number {gs = gs} rest k le q) =
    a_number rest (next_group h k) (omega (arith, le)) (e (groups_value gs) ∙ q)
Decodes-more b h e (cut_off k lt) = cut_off (each_more h k) (omega (arith, lt))
Decodes-more b h e (too_long rest k q) = too_long rest (each_more h k) (omega (arith, q))

pow_add_seven : (s : ℕ) → 2 ^ (s + 7) ≡ 128 * 2 ^ s
pow_add_seven s =
    let e : s + 7 ≡ suc (suc (suc (suc (suc (suc (suc s)))))) = omega arith in
    rw (e, pow_step, pow_step, pow_step, pow_step, pow_step, pow_step, pow_step) (omega arith)

pub round_value :
    (result s b v : ℕ)
    → (or_group result b s + 2 ^ (s + 7) * v) % word ≡ (result + 2 ^ s * (b % 128 + 128 * v)) % word
unfolding or_group
round_value result s b v =
    let d : 2 ^ s * (b % 128 + 128 * v) ≡ b % 128 * 2 ^ s + 128 * (2 ^ s * v) = grind arith in
    let p : 128 * 2 ^ s * v ≡ 128 * (2 ^ s * v) = grind arith in
    rw (pow_add_seven s, d, p) (omega arith)

pub value_once :
    (result s b : ℕ) → (result + 2 ^ s * groups_value (b ∷ [])) % word ≡ or_group result b s
unfolding groups_value or_group
value_once result s b =
    let d : 2 ^ s * (b % 128 + 128 * 0) ≡ b % 128 * 2 ^ s = grind arith in omega (arith, d)

u32_byte :
    (n result s b : ℕ) (r : Text)
    → (128 ≤ b
        → Decodes
            (λ v. (result + 2 ^ s * v) % word)
            (suc n)
            (b ∷ r)
            ((if leb 35 (s + 7)
                then fail (leb_overflow ∷ [])
                else u32_rounds n (or_group result b s) (s + 7))
              r))
    → Decodes
        (λ v. (result + 2 ^ s * v) % word)
        (suc n)
        (b ∷ r)
        (u32_rounds (suc n) result s (b ∷ r))
unfolding u32_rounds
u32_byte n result s b r more = elim (Bool-cases (ltb b 128)) [
  | inl e ↦ rw e (
      a_number {gs = b ∷ []} r (last_group (lt_of_ltb b 128 e)) (omega arith)
        (value_once result s b))
  | inr e ↦ rw e (more (le_of_not_ltb b 128 e))
]

u32_rounds-Decodes :
    (n result s : ℕ) (r : Text)
    → s + 7 * suc n ≡ 35
    → Decodes (λ v. (result + 2 ^ s * v) % word) (suc n) r (u32_rounds (suc n) result s r)
unfolding u32_rounds
u32_rounds-Decodes n result s [] h = cut_off each_none (omega arith)
u32_rounds-Decodes zero result s (b ∷ r) h = u32_byte zero result s b r (λ large.
    rw (leb-true 35 (s + 7) (omega arith))
      (too_long {gs = b ∷ []} r (each_more large each_none) refl))
u32_rounds-Decodes (suc n) result s (b ∷ r) h = u32_byte (suc n) result s b r (λ large.
    rw (leb-false 35 (s + 7) (omega arith)) (
      Decodes-more {f = λ v. (or_group result b s + 2 ^ (s + 7) * v) % word} b large
        (λ v. sym (round_value result s b v))
        (u32_rounds-Decodes n (or_group result b s) (s + 7) r (omega arith))))

-- readU32Leb128 on every input: the value of the first groups if they are at most five, wrapped to 32
-- bits; io.EOF if the input ends within the first five groups and marks each of them as continued; an
-- overflow error if the first five bytes are all marked so.
pub read_u32_leb128-Decodes : (r : Text) → Decodes (λ v. v % word) 5 r (read_u32_leb128 r)
unfolding read_u32_leb128
read_u32_leb128-Decodes r =
    let plain : (λ v. (0 + 2 ^ 0 * v) % word) ≡ (λ v. v % word) = fun_ext (λ v. omega arith) in
    rw plain at (u32_rounds-Decodes 4 0 0 r (omega arith))
