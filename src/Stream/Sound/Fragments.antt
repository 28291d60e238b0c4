-- ===== src/Stream/Sound/Fragments.antt =====
-- readRecordMarking: what its rounds keep of the parser.
use stellar_xdr_lens.Prelude.{
  ◌+◌, ◌%◌, ◌^◌, ◌≤◌, ◌<◌, ◌≡◌, ◌&&◌, ◌∷◌, ◌++◌, ◌==◌, [], true, false, none, some, refl, Text,
  Bool, ℕ, length, Option, leb, arith, Bool-cases, inl, inr, ltb, zero, suc, length-append,
  le_of_not_ltb, ◌∙◌, ap, sym,
}
use stellar_xdr_lens.Stream.Parser.{StreamParser, read_full}
use stellar_xdr_lens.Stream.Read.{fragment_data, fragment_header, header_error, fragments}
use stellar_xdr_lens.Errors.{Result, Sentinel, premature_eof, record_too_large}
use stellar_xdr_lens.Stream.Sound.{
  Reached, IsSound, error-IsSound, record-IsSound, Reached-trans, read_full-Reached,
  read_full_whole, IsSound-after,
}
use stellar_xdr_lens.Encoding.Big.{uint32_be}
use mathlib.Core.Path.{subst}

-- What holds of the buffer at the head of the loop.
abbrev Kept : StreamParser → Text → ℕ → Type 0
Kept p kept total = p.max_record_size ≤ 2 ^ 31 → (length kept ≡ total) × (total ≤ p.max_record_size)

kept_next :
    (kept body : Text) (total n max : ℕ)
    → max ≤ 2 ^ 31
    → length kept ≡ total
    → total ≤ max
    → length body ≡ n
    → n < 2 ^ 31
    → ltb max ((total + n) % 2 ^ 32) ≡ false
    → (length (kept ++ body) ≡ (total + n) % 2 ^ 32) × ((total + n) % 2 ^ 32 ≤ max)
kept_next kept body total n max word e fits same small test =
    (omega (arith, length-append {0} kept body), le_of_not_ltb max ((total + n) % 2 ^ 32) test)

module _ (p : StreamParser) where
  data-IsSound :
      (is_last : Bool) (kept : Text) (total : ℕ)
      (more : Text → StreamParser → Result Text × StreamParser)
      (r : Text × Option Sentinel × StreamParser)
      → Reached p r.2
      → length r.2.input < length p.input
      → (r.1 ≡ none → Kept p (kept ++ r.0) total)
      → ((b : Text) (q : StreamParser)
          → Reached p q
          → length q.input < length p.input
          → Kept p b total
          → IsSound p (more b q))
      → IsSound p (fragment_data is_last kept more r)
  unfolding fragment_data
  data-IsSound is_last kept total more (frag, some s, q) reached less inv rest =
      error-IsSound (premature_eof ∷ s ∷ []) reached
  data-IsSound true kept total more (frag, none, q) reached less inv rest =
      record-IsSound (kept ++ frag) reached less (λ w. omega (arith, inv refl w.0))
  data-IsSound false kept total more (frag, none, q) reached less inv rest =
      rest (kept ++ frag) q reached less (inv refl)

  header-IsSound :
      (kept : Text) (total : ℕ) (more : Text → ℕ → StreamParser → Result Text × StreamParser)
      (r : Text × Option Sentinel × StreamParser)
      → Reached p r.2
      → (r.1 ≡ none → length r.2.input < length p.input)
      → Kept p kept total
      → ((b : Text) (t : ℕ) (q : StreamParser)
          → Reached p q
          → length q.input < length p.input
          → Kept p b t
          → IsSound p (more b t q))
      → IsSound p (fragment_header kept total more r)
  header-IsSound kept total more (buf, some s, q) reached less inv rest =
      unfold fragment_header in error-IsSound (header_error s kept) reached
  header-IsSound kept total more (buf, none, q) reached less inv rest =
      let is_last = leb (2 ^ 31) (uint32_be buf) in
      let n = uint32_be buf % 2 ^ 31 in
      let total' = (total + n) % 2 ^ 32 in
      let r = read_full n q in
      unfold fragment_header in
      elim (Bool-cases ((n == 0) && is_last)) [
        | inl stop ↦ rw stop (record-IsSound kept reached (less refl) (λ w. omega (arith, inv w.0)))
        | inr go ↦ elim (Bool-cases (ltb q.max_record_size total')) [
          | inl big ↦ rw (go, big) (error-IsSound (record_too_large ∷ []) reached)
          | inr fits ↦
              rw (go, fits)
                (data-IsSound is_last kept total' (λ b. more b total') r
                  (Reached-trans reached (read_full-Reached q n))
                  (omega (arith, less refl, (read_full-Reached q n).shrinks))
                  (λ whole w.
                    kept_next kept r.0 total n p.max_record_size w (inv w).0 (omega (arith, inv w))
                      (read_full_whole q n whole).0 (omega arith)
                      (ap (λ m. ltb m total') (sym reached.limit) ∙ fits))
                  (λ b. rest b total'))
        ]
      ]

pub fragments-IsSound :
    (fuel : ℕ) (kept : Text) (total : ℕ) (p : StreamParser)
    → length p.input < fuel
    → Kept p kept total
    → IsSound p (fragments fuel kept total p)
unfolding fragments
fragments-IsSound zero kept total p enough inv = absurd (omega arith)
fragments-IsSound (suc fuel) kept total p enough inv =
    header-IsSound p kept total (fragments fuel) (read_full 4 p) (read_full-Reached p 4)
      (λ whole. omega (arith, read_full_whole p 4 whole)) inv
      λ b t q reached less inv'. IsSound-after reached (
        fragments-IsSound fuel b t q (omega arith)
          (subst (λ m. m ≤ 2 ^ 31 → (length b ≡ t) × (t ≤ m)) (sym reached.limit) inv'))
