-- ===== src/Diff/Power.antt =====
-- The change that analyzeAccountQuorum appends.
use stellar_xdr_lens.Prelude.{
  ◌+◌, ◌%◌, ◌^◌, ◌<◌, ◌≡◌, ◌∷◌, ◌++◌, ◌==◌, [], none, some, refl, List, Option, ℕ, codes, itoa,
  Bool-cases, inl, inr, arith, ◌≢◌, sym, ◌∙◌,
}
use stellar_xdr_lens.Diff.Change.{Change, change_modified}
use stellar_xdr_lens.Diff.Quorum.{
  AccountEntry, add_weights, signing_weight, power_change, quorum_of, analyze_account_signers,
  SignerQuorumAnalysis,
}
use stellar_xdr_lens.Tree.Value.{uint}

unfoldable pub sum_of : List ℕ → ℕ
sum_of [] = 0
sum_of (n ∷ ns) = n + sum_of ns

-- The weight of the master key and of all signers, modulo 2^32; no account has none.
unfoldable pub total_weight : Option AccountEntry → ℕ
total_weight none = 0
total_weight (some a) = (a.master_weight + sum_of a.weights) % 2 ^ 32

-- The changes behind the walk: none where the total weights are equal, else the one that shows them.
pub data PowerChanges {F : Type 0} (m n : ℕ) : List (Change F) → Type 0 where
  same_power : m ≡ n → PowerChanges m n []
  other_power :
      m ≢ n
      → PowerChanges m n (
          record {
            path = codes "Thresholds.EffectiveSigningPower";
            op = change_modified;
            before = uint m;
            after = uint n;
            before_note = codes "total signing weight " ++ itoa m;
            after_note = codes "total signing weight " ++ itoa n;
          }
          ∷ [])

add_weights-sum_of :
    (sum : ℕ) (ws : List ℕ) → sum < 2 ^ 32 → add_weights sum ws ≡ (sum + sum_of ws) % 2 ^ 32
unfolding add_weights sum_of
add_weights-sum_of sum [] small = omega (arith, small)
add_weights-sum_of sum (w ∷ ws) small =
    omega (arith, add_weights-sum_of ((sum + w) % 2 ^ 32) ws (omega arith))

signing_weight-total_weight : (a : Option AccountEntry) → signing_weight a ≡ total_weight a
unfolding signing_weight total_weight
signing_weight-total_weight none = refl
signing_weight-total_weight (some a) =
    unfold sum_of in
    add_weights-sum_of 0 (a.master_weight ∷ a.weights) (omega arith) ∙ (omega arith)

module _ {F : Type 0} where
  power_change-PowerChanges :
      (a : SignerQuorumAnalysis)
      → PowerChanges {F = F} a.before_weight a.after_weight (power_change a)
  unfolding power_change
  power_change-PowerChanges a = elim (Bool-cases (a.before_weight == a.after_weight)) [
    | inl e ↦ rw e (same_power (ground (arith, e)))
    | inr e ↦ rw e (other_power (λ same. ground (arith, e, same)))
  ]

  pub quorum_of-PowerChanges :
      (l r : Option AccountEntry)
      → PowerChanges {F = F} (total_weight l) (total_weight r) (quorum_of l r).0
  unfolding quorum_of analyze_account_signers
  quorum_of-PowerChanges none none = same_power refl
  quorum_of-PowerChanges none (some r) =
      rw (sym (signing_weight-total_weight (some r)), sym (signing_weight-total_weight none))
        (power_change-PowerChanges (analyze_account_signers none (some r)))
  quorum_of-PowerChanges (some l) r =
      rw (sym (signing_weight-total_weight (some l)), sym (signing_weight-total_weight r))
        (power_change-PowerChanges (analyze_account_signers (some l) r))
