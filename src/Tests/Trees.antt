-- ===== src/Tests/Trees.antt =====
-- Trees, changes and signers of diff.go, signer_diff.go and diff_stats.go. The floats here are the
use stellar_xdr_lens.Prelude.{◌++◌, refl, text_eq}
-- natural numbers.
use stellar_xdr_lens.Prelude.{
  ◌-◌, ◌≡◌, ◌↔◌, ◌∷◌, ◌==◌, [], true, none, List, Text, ℕ, Bool, codes, pos, negsuc, ltb, leb, itoa,
}
use stellar_xdr_lens.Diff.Change.{DiffOptions, Change, added, removed, modified}
use stellar_xdr_lens.Diff.Pairing.{IsPairing, pair_up-IsPairing}
use stellar_xdr_lens.Diff.Signers.{set_diff_equal, MultisetItem, signer_set_diff}
use stellar_xdr_lens.Diff.Stats.{summarize_changes, path_depth}
use stellar_xdr_lens.Diff.Tallies.{Tallies, CountsIn, ops_of, section_at}
use stellar_xdr_lens.Diff.Totals.{
  NoDeeper, kinds_sum, summarize_changes-deepest, section_sum, summarize_changes-totals,
}
use stellar_xdr_lens.Diff.Walk.{diff_trees}
use stellar_xdr_lens.Tree.Value.{
  GoLib, Node, node, scalar, struct, nil, str, empty, more, list, kind_eq, is_nil, show_val,
}
use stellar_xdr_lens.Diff.Equal.{diff_trees_self}
use stellar_xdr_lens.Diff.Greedy.{pair_up}
use stellar_xdr_lens.Diff.Multiset.{SameMultiset, signer_set_diff-SameMultiset}
use stellar_xdr_lens.Diff.Ledger.Fields.{
  has_ledger_entry_data, data_type, first_found, is_struct_named, text_field, fields_of,
  fields_of_all, arm_children,
}
use stellar_xdr_lens.Diff.Ledger.Keys.{
  extract_ledger_key, key_of_data, key_at_type, key_of_type, extract_account_key, simple_key,
  labelled,
}
use stellar_xdr_lens.Diff.Scalar.{or_else, is_some, with_default}
use stellar_xdr_lens.Diff.Ledger.{ledger_entry_created, with_transition, transition_change}
use stellar_xdr_lens.Diff.Created.{with_transition-created}
use stellar_xdr_lens.Diff.Shape.{AllShaped}
use stellar_xdr_lens.Diff.WellFormed.{diff_trees-IsShaped}

abbrev pub small_go : GoLib
small_go = record {
  F = ℕ;
  zero_f = 0;
  of_int = λ z. elim z [ pos n ↦ n | negsuc n ↦ 0 ];
  sub_f = λ a b. a - b;
  abs_f = λ a. a;
  floor_f = λ a. a;
  eq_f = λ a b. a == b;
  lt_f = λ a b. ltb a b;
  le_f = λ a b. leb a b;
  to_uint = λ a. a;
  parse_f = λ s. none;
  show_f = λ a. itoa a;
  quote = λ s. b'"' ∷ (s ++ codes "\"");
}

abbrev leaf : Text → Text → Node ℕ
leaf key text = node key scalar (codes "string") (str text) [] empty

-- A transaction with two operations, one of them a memo.
abbrev transaction : Node ℕ
transaction = node [] struct (codes "Transaction") nil [] (
    more (leaf (codes "SourceAccount") (codes "GABC")) (
      more
        (node (codes "Operations") list [] nil []
          (more (leaf [] (codes "pay")) (more (leaf [] (codes "pay")) empty)))
        (more
          (node (codes "Memo") struct (codes "Memo") nil []
            (more (leaf (codes "Text") (codes "100")) empty))
          empty)))

abbrev pub aligned_options : DiffOptions ℕ
aligned_options = record {
  align_lists = true;
  unordered_signers = true;
  mask = none;
  threshold = 2;
  diff_threshold = 0;
}

diff_trees_self_example : diff_trees small_go aligned_options transaction transaction ≡ []
unfolding text_eq
diff_trees_self_example = diff_trees_self small_go aligned_options transaction (
    (
      ((refl, (refl, tt)), ((refl, tt), (tt, tt))),
      (tt, ((tt, (tt, tt)), (((tt, tt), (tt, tt)), tt))),
    ))

abbrev signer : Text → MultisetItem
signer key = record { key = key; label = key }

abbrev three_signers : List MultisetItem
three_signers = signer (codes "A") ∷ signer (codes "B") ∷ signer (codes "A") ∷ []

abbrev swapped_signers : List MultisetItem
swapped_signers = signer (codes "A") ∷ signer (codes "A") ∷ signer (codes "B") ∷ []

signer_set_diff-SameMultiset_example :
    (set_diff_equal (signer_set_diff three_signers swapped_signers) ≡ true)
    ↔ SameMultiset three_signers swapped_signers
signer_set_diff-SameMultiset_example = signer_set_diff-SameMultiset three_signers swapped_signers

abbrev numbers_match : ℕ → ℕ → Bool
numbers_match n m = n == m

pair_up-IsPairing_example :
    IsPairing numbers_match
      (1 ∷ 2 ∷ 1 ∷ [])
      (2 ∷ 1 ∷ 5 ∷ [])
      (pair_up numbers_match (1 ∷ 2 ∷ 1 ∷ []) (2 ∷ 1 ∷ 5 ∷ []))
pair_up-IsPairing_example = pair_up-IsPairing numbers_match (1 ∷ 2 ∷ 1 ∷ []) (2 ∷ 1 ∷ 5 ∷ [])

abbrev some_changes : List (Change ℕ)
some_changes =
    added (codes "Ops[0].Body") (leaf [] (codes "x"))
    ∷ removed (codes "Ops[1]") (leaf [] (codes "y"))
    ∷ modified (codes "Fee") (leaf [] (codes "1")) (leaf [] (codes "2"))
    ∷ []

summarize_changes-totals_example :
    let s = summarize_changes (codes "Transaction") (codes "Transaction") some_changes in
    Tallies (ops_of some_changes) s.totals
    × ((path : Text) → CountsIn path some_changes (section_at path s.sections))
    × (s.total ≡ kinds_sum s.totals)
    × (s.total ≡ section_sum s.sections)
summarize_changes-totals_example =
    summarize_changes-totals (codes "Transaction") (codes "Transaction") some_changes

no_change_deeper :
    NoDeeper
      (path_depth
        (summarize_changes (codes "Transaction") (codes "Transaction") some_changes).deepest_path)
      some_changes
no_change_deeper =
    summarize_changes-deepest (codes "Transaction") (codes "Transaction") some_changes

-- A ledger entry without data, and one with an account.
abbrev no_entry : Node ℕ
no_entry = node [] struct (codes "LedgerEntry") nil [] empty

abbrev account_entry : Node ℕ
account_entry = node [] struct (codes "LedgerEntry") nil [] (
    more
      (node (codes "Data") struct (codes "LedgerEntryData") nil [] (
        more (leaf (codes "Type") (codes "LedgerEntryTypeAccount")) (
          more
            (node (codes "Account") struct (codes "AccountEntry") nil []
              (more (leaf (codes "AccountId") (codes "GABC")) empty))
            empty)))
      empty)

account_has_key : extract_ledger_key small_go account_entry ≡ codes "Account(GABC)"
unfolding extract_ledger_key first_found key_of_data key_at_type key_of_type text_field
    extract_account_key simple_key labelled fields_of fields_of_all arm_children is_struct_named
    kind_eq is_nil show_val or_else with_default text_eq
account_has_key = refl

with_transition-created_example :
    with_transition small_go no_entry account_entry (codes "E") []
    ≡ transition_change small_go (codes "E") ledger_entry_created ∷ []
unfolding has_ledger_entry_data data_type first_found is_struct_named text_field kind_eq is_nil
    or_else is_some text_eq
with_transition-created_example =
    with_transition-created small_go no_entry account_entry (codes "E") [] refl refl

diff_trees-IsShaped_example :
    AllShaped (diff_trees small_go aligned_options transaction account_entry)
diff_trees-IsShaped_example = diff_trees-IsShaped small_go aligned_options transaction account_entry
