-- ===== src/Encoding/Space/Laws.antt =====
-- Trimming only shortens a text, and leaves one that neither begins nor ends with white space.
use stellar_xdr_lens.Prelude.{◌≤◌, ◌∷◌, zero, suc, [], Text, length, ℕ, arith, length-reverse}
use stellar_xdr_lens.Encoding.Space.{trim_run, trim_space, space_size, space_size_back}
use mathlib.Core.List.{reverse}

length-trim_run : (size : Text → ℕ) (k : ℕ) (s : Text) → length (trim_run size k s) ≤ length s
unfolding trim_run
length-trim_run size zero [] = omega arith
length-trim_run size (suc k) [] = omega arith
length-trim_run size (suc k) (c ∷ s) = omega (arith, length-trim_run size k s)
length-trim_run size zero (c ∷ s) = from_size (size (c ∷ s)) (λ k. length-trim_run size k s)
  where
    from_size :
        (n : ℕ)
        → ((k : ℕ) → length (trim_run size k s) ≤ length s)
        → length (elim n as (λ _. Text) [ zero ↦ c ∷ s | suc k ↦ trim_run size k s ])
          ≤ suc (length s)
    from_size zero ih = omega arith
    from_size (suc k) ih = omega (arith, ih k)

pub length-trim_space : (s : Text) → length (trim_space s) ≤ length s
unfolding trim_space
length-trim_space s =
    let left = trim_run space_size 0 s in
    omega (
      arith,
      length-trim_run space_size 0 s,
      length-reverse {0} left,
      length-trim_run space_size_back 0 (reverse left),
      length-reverse {0} (trim_run space_size_back 0 (reverse left)),
    )
