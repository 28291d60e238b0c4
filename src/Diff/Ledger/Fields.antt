-- ===== src/Diff/Ledger/Fields.antt =====
-- The loops by which diff.go looks for fields of a ledger entry.
use mathlib.Core.Option
use stellar_xdr_lens.Prelude.{
  ◌&&◌, ◌∷◌, ◌++◌, if◌then◌else◌, [], true, false, none, some, Bool, Text, List, Option, text_eq,
  codes, ℕ, not,
}
use stellar_xdr_lens.Tree.Value.{
  GoLib, Node, children, name, kind_eq, is_nil, kind, struct, value, show_val,
}
use stellar_xdr_lens.Diff.Scalar.{is_some, trim_prefix, or_else, with_default, as_number}

module _ {F : Type 0} where
  unfoldable pub is_struct_named : Text → Node F → Bool
  is_struct_named key n = text_eq (name n) key && kind_eq (kind n) struct

  -- The first child for which a loop returns.
  unfoldable pub first_found {ℓ} : {A : Type ℓ} → (Node F → Option A) → List (Node F) → Option A
  first_found f [] = none
  first_found f (c ∷ cs) = or_else (f c) (first_found f cs)

  -- The last child for which a loop assigns.
  unfoldable pub last_of {ℓ} : {A : Type ℓ} → (Node F → Option A) → A → List (Node F) → A
  last_of f cur [] = cur
  last_of f cur (c ∷ cs) = last_of f (with_default cur (f c)) cs

  unfoldable pub arm_children : Bool → Node F → List (Node F)
  arm_children true n = children n
  arm_children false n = []

  -- The grandchildren that the two nested loops visit.
  unfoldable pub fields_of_all : Text → List (Node F) → List (Node F)
  fields_of_all arm [] = []
  fields_of_all arm (c ∷ cs) = arm_children (is_struct_named arm c) c ++ fields_of_all arm cs

  unfoldable pub fields_of : Text → Node F → List (Node F)
  fields_of arm n = fields_of_all arm (children n)

module _ (go : GoLib) where
  -- The text of a field, where it has that name and a value.
  unfoldable pub text_field : Text → Node go.F → Option Text
  text_field key n =
      if text_eq (name n) key && not (is_nil (value n)) then some (show_val go (value n)) else none

  unfoldable pub number_field : Text → Node go.F → Option ℕ
  number_field key n =
      if text_eq (name n) key && not (is_nil (value n))
      then Option.map go.to_uint (as_number go (value n))
      else none

  unfoldable pub struct_field : (Node go.F → Text) → Text → Node go.F → Option Text
  struct_field summary key n = if is_struct_named key n then some (summary n) else none

  -- The loops over the children of the data of an entry, as far as its type.
  unfoldable pub data_type : Node go.F → Option Text
  data_type n =
      if is_struct_named (codes "Data") n
      then first_found (text_field (codes "Type")) (children n)
      else none

  -- hasLedgerEntryData
  unfoldable pub has_ledger_entry_data : Node go.F → Bool
  has_ledger_entry_data n = is_some (first_found data_type (children n))

  -- extractLedgerEntryType
  unfoldable pub extract_ledger_entry_type : Node go.F → Text
  extract_ledger_entry_type n =
      trim_prefix (codes "LedgerEntryType") (with_default [] (first_found data_type (children n)))
