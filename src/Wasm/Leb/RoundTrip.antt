-- ===== src/Wasm/Leb/RoundTrip.antt =====
-- readU32Leb128 behind an encoder of the format, which writes the shortest encoding.
use stellar_xdr_lens.Prelude.{
  ◌+◌, ◌*◌, ◌/◌, ◌%◌, ◌^◌, ◌≤◌, ◌<◌, ◌≡◌, ◌∙◌, ◌∷◌, ◌++◌, if◌then◌else◌, zero, suc, [], refl, ℕ,
  Text, arith, ltb, Bool-cases, ap, length, inl, lt_of_ltb, ltb-true, inr, sym, ltb-false,
  leb-false,
}
use stellar_xdr_lens.Wasm.Leb.{read_u32_leb128, u32_rounds, word, or_group}
use stellar_xdr_lens.Wasm.Leb.Groups.{
  groups_value, last_group, IsGroups, next_group, value_once, round_value,
}
use stellar_xdr_lens.Errors.{ok}

-- The groups of a number are read back, whatever follows them.
rounds-groups :
    (n result s : ℕ) {gs : Text} (rest : Text)
    → IsGroups gs
    → length gs ≤ suc n
    → s + 7 * suc n ≡ 35
    → u32_rounds (suc n) result s (gs ++ rest)
      ≡ ok ((result + 2 ^ s * groups_value gs) % word, rest)
unfolding u32_rounds groups_value
rounds-groups n result s rest (last_group {b = b} small) fits e =
    rw (ltb-true b 128 small) (ap (λ x. ok (x, rest)) (sym (value_once result s b)))
rounds-groups n result s rest (next_group {b = b} {gs = []} large k) fits e = elim k [ ]
rounds-groups zero result s rest (next_group {b = b} {gs = c ∷ gs} large k) fits e =
    absurd (omega arith)
rounds-groups (suc n) result s rest (next_group {b = b} {gs = c ∷ gs} large k) fits e =
    rw (ltb-false b 128 large, leb-false 35 (s + 7) (omega arith))
      (rounds-groups n (or_group result b s) (s + 7) rest k (omega arith) (omega arith)
        ∙ ap (λ x. ok (x, rest)) (round_value result s b (groups_value (c ∷ gs))))

unfoldable pub put_groups : ℕ → ℕ → Text
put_groups zero n = n ∷ []
put_groups (suc f) n =
    let more = put_groups f (n / 128) in if ltb n 128 then n ∷ [] else (128 + n % 128) ∷ more

-- A number below 2^32 has at most five groups.
unfoldable pub put_u32_leb128 : ℕ → Text
unfolding put_groups
put_u32_leb128 n = put_groups 4 n

abbrev WritesGroups : ℕ → ℕ → Text → Type 0
WritesGroups f n gs = IsGroups gs × (length gs ≤ suc f) × (groups_value gs ≡ n)

WritesGroups-more :
    (f n : ℕ) (gs : Text)
    → WritesGroups f (n / 128) gs
    → WritesGroups (suc f) n ((128 + n % 128) ∷ gs)
unfolding groups_value
WritesGroups-more f n gs (k, le, v) = (next_group (omega arith) k, omega arith, omega (arith, v))

put_groups-WritesGroups : (f n : ℕ) → n < 128 ^ suc f → WritesGroups f n (put_groups f n)
unfolding put_groups groups_value
put_groups-WritesGroups zero n h = (last_group (omega arith), omega arith, omega arith)
put_groups-WritesGroups (suc f) n h =
    let more = WritesGroups-more f n _ (put_groups-WritesGroups f (n / 128) (omega arith)) in
    elim (Bool-cases (ltb n 128)) [
      | inl small ↦
          rw small
            (last_group (lt_of_ltb n 128 small), omega arith, omega (arith, lt_of_ltb n 128 small))
      | inr large ↦ rw large more
    ]

-- A number below 2^32 is read back from its encoding, whatever follows.
pub read_u32_leb128-put :
    (n : ℕ) (rest : Text) → n < 2 ^ 32 → read_u32_leb128 (put_u32_leb128 n ++ rest) ≡ ok (n, rest)
unfolding read_u32_leb128 put_u32_leb128
read_u32_leb128-put n rest h =
    let (k, le, v) = put_groups-WritesGroups 4 n (omega arith) in
    rounds-groups 4 0 0 rest k le refl ∙ ap (λ x. ok (x, rest)) (omega (arith, v))
