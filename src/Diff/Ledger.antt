-- ===== src/Diff/Ledger.antt =====
-- diffLedgerEntryTransition: what happened to a ledger entry, and the changes that head its diff.
pub mod Keys
pub mod Fields
use stellar_xdr_lens.Prelude.{
  ◌&&◌, ◌||◌, ◌∷◌, ◌++◌, if◌then◌else◌, ◌==◌, [], true, false, Bool, Text, List, codes, text_eq,
  not, length,
}
use stellar_xdr_lens.Tree.Value.{GoLib, Node, type_name, str}
use stellar_xdr_lens.Diff.Change.{Change, change_modified}
use stellar_xdr_lens.Diff.Ledger.Fields.{has_ledger_entry_data, extract_ledger_entry_type}
use stellar_xdr_lens.Diff.Ledger.Keys.{extract_ledger_key}

pub data LedgerEntryTransition : Type 0 where
  ledger_entry_created ledger_entry_updated ledger_entry_deleted ledger_entry_unknown :
      LedgerEntryTransition

unfoldable pub transition_string : LedgerEntryTransition → Text
transition_string ledger_entry_created = codes "CREATED"
transition_string ledger_entry_updated = codes "UPDATED"
transition_string ledger_entry_deleted = codes "DELETED"
transition_string ledger_entry_unknown = codes "UNKNOWN"

unfoldable pub transition_of : Bool → Bool → LedgerEntryTransition
transition_of false true = ledger_entry_created
transition_of true false = ledger_entry_deleted
transition_of true true = ledger_entry_updated
transition_of false false = ledger_entry_unknown

unfoldable pub is_structural_change : LedgerEntryTransition → Bool
is_structural_change ledger_entry_created = true
is_structural_change ledger_entry_deleted = true
is_structural_change _ = false

-- isLedgerEntryStruct
unfoldable pub is_ledger_entry_struct : {F : Type 0} → Node F → Node F → Bool
is_ledger_entry_struct a b =
    text_eq (type_name a) (codes "LedgerEntry") && text_eq (type_name b) (codes "LedgerEntry")

module _ (go : GoLib) where
  -- classifyLedgerEntryTransition
  unfoldable pub classify_transition : Node go.F → Node go.F → LedgerEntryTransition
  classify_transition a b = transition_of (has_ledger_entry_data go a) (has_ledger_entry_data go b)

  -- A change that shows one text on both sides, and one note.
  unfoldable pub remark : Text → Text → Text → Change go.F
  remark path shown noted = record {
    path = path;
    op = change_modified;
    before = str shown;
    after = str shown;
    before_note = noted;
    after_note = noted;
  }

  unfoldable pub transition_change : Text → LedgerEntryTransition → Change go.F
  transition_change path t =
      remark path (transition_string t) (codes "LedgerEntry transition: " ++ transition_string t)

  unfoldable pub key_change : Text → Text → Text → List (Change go.F)
  key_change path key entry_type =
      if not (length key == 0) && not (length entry_type == 0)
      then remark (path ++ codes ".LedgerKey") key
          (entry_type ++ (codes " (" ++ (key ++ codes ")")))
        ∷ []
      else []

  -- The changes of diffLedgerEntryTransition from the detailed ones.
  unfoldable pub with_transition :
      Node go.F → Node go.F → Text → List (Change go.F) → List (Change go.F)
  with_transition a b path detailed =
      let t = classify_transition a b in
      if not (length detailed == 0) || is_structural_change t
      then (transition_change path t
          ∷ key_change path (extract_ledger_key go a) (extract_ledger_entry_type go a))
        ++ detailed
      else detailed
