-- ===== src/Diff/Created.antt =====
-- diffLedgerEntryTransition on a ledger entry that is created.
use stellar_xdr_lens.Prelude.{
  ◌≡◌, ◌∷◌, ◌==◌, [], true, false, none, some, refl, Option, Text, text_eq, List, not, length,
  Bool-cases, inl, inr, or_true,
}
use stellar_xdr_lens.Diff.Scalar.{is_some, with_default, trim_prefix}
use stellar_xdr_lens.Tree.Value.{GoLib, Node, children}
use stellar_xdr_lens.Diff.Ledger.{
  ledger_entry_created, with_transition, classify_transition, transition_of, is_structural_change,
  key_change, transition_change,
}
use stellar_xdr_lens.Diff.Ledger.Fields.{
  has_ledger_entry_data, extract_ledger_entry_type, first_found, data_type,
}
use stellar_xdr_lens.Diff.Change.{Change}
use stellar_xdr_lens.Diff.Ledger.Keys.{extract_ledger_key}

no_type : (found : Option Text) → is_some found ≡ false → with_default [] found ≡ []
unfolding is_some with_default
no_type none h = refl
no_type (some t) h = absurd cc

module _ (go : GoLib) where
  untyped :
      (a : Node go.F) → has_ledger_entry_data go a ≡ false → extract_ledger_entry_type go a ≡ []
  unfolding has_ledger_entry_data extract_ledger_entry_type trim_prefix text_eq
  untyped a h = rw (no_type (first_found (data_type go) (children a)) h)

  typeless : (path key : Text) → key_change go path key [] ≡ []
  unfolding key_change
  typeless path key = elim (Bool-cases (length key == 0)) [ inl e ↦ rw e | inr e ↦ rw e ]

  -- A ledger entry without data on the left and with data on the right is headed by its transition to
  -- CREATED alone: no ledger key is shown, though the right side has one.
  pub with_transition-created :
      (a b : Node go.F) (path : Text) (detailed : List (Change go.F))
      → has_ledger_entry_data go a ≡ false
      → has_ledger_entry_data go b ≡ true
      → with_transition go a b path detailed
        ≡ transition_change go path ledger_entry_created ∷ detailed
  unfolding with_transition classify_transition transition_of is_structural_change
  with_transition-created a b path detailed left_empty right_full = rw (
    left_empty,
    right_full,
    untyped a left_empty,
    typeless path (extract_ledger_key go a),
    or_true (not (length detailed == 0)),
  )
