-- ===== src/Tests/Redactions.antt =====
-- Redacted trees of diff_redact.go. The glob here is equality.
use stellar_xdr_lens.Redact.Laws.{both_kept, both_redacted, more_nodes, no_nodes}
use stellar_xdr_lens.Prelude.{
  ◌≡◌, ◌↔◌, ◌∷◌, [], true, false, some, refl, Text, text_eq, Option, codes, ℕ, Bool, map,
}
use stellar_xdr_lens.Redact.Diffed.{diff_with_options, diff_with_options-PowerChanges}
use stellar_xdr_lens.Redact.Policy.{
  RedactionPolicy, enabled, placeholder_for, redaction_policy_from_names,
}
use stellar_xdr_lens.Redact.Tree.{redact_node, redact_value}
use stellar_xdr_lens.Tree.Value.{Node, node, struct, nil, more, scalar, str, empty, uint, Val}
use stellar_xdr_lens.Diff.Equal.{WellNamed}
use stellar_xdr_lens.Redact.Laws.{Agree, redact_node_idem, redact_node-Agree_iff}
use stellar_xdr_lens.Tests.Trees.{small_go, aligned_options}
use stellar_xdr_lens.Redact.Paths.{masked_paths, Firsts, redact_value-paths, Firsts}
use stellar_xdr_lens.Diff.Power.{PowerChanges, total_weight}
use stellar_xdr_lens.Diff.Quorum.{
  RawValue, quorum_of, account_raw, analyze_account_signers, empty_account, extract_account_entry,
  signing_weight, power_change,
}
use stellar_xdr_lens.Filter.Changes.{PathFilter}
use stellar_xdr_lens.Diff.Change.{Change}

abbrev same_only : Text → Text → Option Bool
same_only pattern s = some (text_eq pattern s)

abbrev hide_all : RedactionPolicy
hide_all = record {
  hashes = true;
  signatures = true;
  identifiers = false;
  fields = codes "Seq" ∷ [];
}

abbrev signed : Text → Text → Node ℕ
signed hash seq = node [] struct (codes "Tx") nil [] (
    more (node (codes "Id") scalar (codes "Hash") (str hash) [] empty) (
      more (node (codes "Seq") scalar (codes "Int64") (str seq) [] empty)
        (more (node (codes "Fee") scalar (codes "Uint32") (str (codes "100")) [] empty) empty)))

abbrev first_signed : Node ℕ
first_signed = signed (codes "aa") (codes "1")

abbrev second_signed : Node ℕ
second_signed = signed (codes "bb") (codes "2")

signed-Agree : Agree same_only hide_all first_signed second_signed
unfolding placeholder_for
signed-Agree = both_kept refl (
    more_nodes (both_redacted refl refl)
      (more_nodes (both_redacted refl refl) (more_nodes (both_kept refl no_nodes) no_nodes)))

redact_node-Agree_iff_example :
    ((redact_node same_only hide_all [] first_signed []).0
      ≡ (redact_node same_only hide_all [] second_signed []).0)
    ↔ Agree same_only hide_all first_signed second_signed
redact_node-Agree_iff_example =
    redact_node-Agree_iff same_only hide_all first_signed second_signed [] []

redacted_twice :
    (redact_node same_only hide_all [] (redact_node same_only hide_all [] first_signed []).0 []).0
    ≡ (redact_node same_only hide_all [] first_signed []).0
redacted_twice = redact_node_idem same_only hide_all first_signed [] [] [] []

hides : enabled hide_all ≡ true
unfolding enabled
hides = refl

redact_value-paths_example :
    Firsts []
      (masked_paths same_only hide_all [] first_signed)
      (redact_value same_only hide_all first_signed).1
redact_value-paths_example = redact_value-paths same_only hide_all first_signed hides

signed_named : WellNamed small_go aligned_options first_signed
unfolding text_eq
signed_named = ((((refl, (refl, tt)), ((refl, tt), (tt, tt)))), (tt, (tt, (tt, tt))))

-- An account with one signer, and one whose signer has another weight.
abbrev weighed : ℕ → RawValue
weighed w = account_raw (some (record empty_account { master_weight = 1; weights = w ∷ [] }))

abbrev no_filter : PathFilter
no_filter = record { includes = []; excludes = [] }

diff_with_options-PowerChanges_example :
    PowerChanges
      (total_weight (
        extract_account_entry small_go
          (weighed 1)
          (redact_node same_only hide_all [] first_signed []).0))
      (total_weight (
        extract_account_entry small_go
          (weighed 5)
          (redact_node same_only hide_all [] second_signed []).0))
      (diff_with_options same_only small_go hide_all aligned_options no_filter first_signed
        (weighed 1)
        second_signed
        (weighed 5)).changes
diff_with_options-PowerChanges_example =
    diff_with_options-PowerChanges same_only small_go hide_all aligned_options {a = first_signed}
      {b = second_signed} no_filter (weighed 1) (weighed 5) hides signed-Agree signed_named

-- The weights of signers are shown although the trees agree.
weights_shown :
    map {A = Change ℕ} {B = Val ℕ × Val ℕ}
      (λ c. (c.before, c.after))
      (quorum_of {F = ℕ}
        (extract_account_entry small_go (weighed 1) first_signed)
        (extract_account_entry small_go (weighed 5) second_signed)).0
    ≡ (uint 2, uint 6) ∷ []
unfolding quorum_of analyze_account_signers signing_weight power_change extract_account_entry
weights_shown = refl

two_categories :
    redaction_policy_from_names (codes "Hash, sigs" ∷ [])
    ≡ some (record { hashes = true; signatures = true; identifiers = false; fields = [] })
unfolding redaction_policy_from_names
two_categories = refl
