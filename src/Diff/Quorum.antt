-- ===== src/Diff/Quorum.antt =====
-- AnalyzeAccountSigners, analyzeAccountQuorum and extractAccountEntry of pkg/lens/diff.go.
use stellar_xdr_lens.Prelude.{
  ◌+◌, ◌-◌, ◌%◌, ◌^◌, ◌&&◌, ◌||◌, ◌∷◌, ◌++◌, ◌==◌, if◌then◌else◌, [], none, some, List, Option,
  Text, ℕ, ℤ, Bool, codes, leb, ltb, not, text_eq, itoa, pos, negsuc, map,
}
use stellar_xdr_lens.Diff.Change.{Change, change_modified}
use stellar_xdr_lens.Diff.Scalar.{as_number, bytes_from_hex, is_some, string_of}
use stellar_xdr_lens.Tree.Query.{child}
use stellar_xdr_lens.Tree.Value.{GoLib, Node, children, type_name, uint, value}

-- What is read of an xdr.AccountEntry: the four bytes of its thresholds, and the weights of its signers.
pub record AccountEntry : Type 0 where
  pub master_weight : ℕ
  pub low_threshold : ℕ
  pub med_threshold : ℕ
  pub high_threshold : ℕ
  pub weights : List ℕ

-- Value.Raw, as extractAccountEntry tells it apart: an account, also that of a ledger entry of the type
-- of accounts, by its pointer, or something else.
pub data RawValue : Type 0 where
  account_raw : Option AccountEntry → RawValue
  other_raw : RawValue

abbrev pub empty_account : AccountEntry
empty_account = record {
  master_weight = 0;
  low_threshold = 0;
  med_threshold = 0;
  high_threshold = 0;
  weights = [];
}

-- copy into Thresholds, of four bytes only.
unfoldable pub with_thresholds : Option Text → AccountEntry → AccountEntry
with_thresholds (some (m ∷ l ∷ md ∷ h ∷ [])) a = record a {
  master_weight = m;
  low_threshold = l;
  med_threshold = md;
  high_threshold = h;
}
with_thresholds _ a = a

unfoldable pub hex_of : Option Text → Option Text
unfolding bytes_from_hex
hex_of none = none
hex_of (some s) = bytes_from_hex s

module _ (go : GoLib) where
  unfoldable pub thresholds_text : Option (Node go.F) → Option Text
  thresholds_text none = none
  thresholds_text (some th) = string_of (value th)

  -- xdr.Uint32 of a number, which is in its range for a weight.
  unfoldable pub weight_number : Option go.F → ℕ
  weight_number none = 0
  weight_number (some f) = go.to_uint f % 2 ^ 32

  unfoldable pub weight_of : Option (Node go.F) → ℕ
  unfolding weight_number as_number
  weight_of none = 0
  weight_of (some w) = weight_number (as_number go (value w))

  unfoldable pub signer_weight : Node go.F → ℕ
  unfolding weight_of child
  signer_weight sc = weight_of (child sc (codes "Weight"))

  unfoldable pub signer_weights : Option (Node go.F) → List ℕ
  unfolding signer_weight
  signer_weights none = []
  signer_weights (some s) = map signer_weight (children s)

  -- The account that a node shows.
  unfoldable pub account_of_node : Node go.F → Option AccountEntry
  unfolding child is_some with_thresholds hex_of thresholds_text signer_weights text_eq
  account_of_node n =
      let th = child n (codes "Thresholds") in
      if text_eq (type_name n) (codes "AccountEntry") || is_some th
      then some (
          with_thresholds (hex_of (thresholds_text th))
            (record empty_account { weights = signer_weights (child n (codes "Signers")) }))
      else none

  unfoldable pub extract_account_entry : RawValue → Node go.F → Option AccountEntry
  unfolding account_of_node
  extract_account_entry (account_raw a) n = a
  extract_account_entry other_raw n = account_of_node n

-- The additions to beforeWeight or afterWeight, in uint32: the master weight, then the signers'.
unfoldable pub add_weights : ℕ → List ℕ → ℕ
add_weights sum [] = sum
add_weights sum (w ∷ ws) = add_weights ((sum + w) % 2 ^ 32) ws

unfoldable pub signing_weight : Option AccountEntry → ℕ
unfolding add_weights
signing_weight none = 0
signing_weight (some a) = add_weights 0 (a.master_weight ∷ a.weights)

unfoldable pub thresholds_of : Option AccountEntry → ℕ × ℕ × ℕ
thresholds_of none = (0, 0, 0)
thresholds_of (some a) = (a.low_threshold, a.med_threshold, a.high_threshold)

pub record SignerQuorumAnalysis : Type 0 where
  pub before_weight : ℕ
  pub after_weight : ℕ
  pub weight_delta : ℤ
  pub low : ℕ
  pub med : ℕ
  pub high : ℕ
  pub meets_medium : Bool
  pub meets_high : Bool
  pub warnings : List Text

-- int64(after) - int64(before)
unfoldable pub difference : ℕ → ℕ → ℤ
difference after before =
    if leb before after then pos (after - before) else negsuc (before - after - 1)

unfoldable pub weight_warning : Bool → ℕ → ℕ → Text → List Text
weight_warning meets weight threshold level =
    if not meets && ltb 0 threshold
    then (codes "total signer weight ("
        ++ (itoa weight
            ++ (codes ") falls below "
                ++ (level ++ (codes " threshold (" ++ (itoa threshold ++ codes ")"))))))
      ∷ []
    else []

unfoldable pub analyze_account_signers :
    Option AccountEntry → Option AccountEntry → SignerQuorumAnalysis
unfolding signing_weight thresholds_of difference weight_warning
analyze_account_signers left right =
    let before = signing_weight left in
    let after = signing_weight right in
    let (low, med, high) = thresholds_of right in
    record {
      before_weight = before;
      after_weight = after;
      weight_delta = difference after before;
      low = low;
      med = med;
      high = high;
      meets_medium = leb med after;
      meets_high = leb high after;
      warnings =
          weight_warning (leb med after) after med (codes "medium")
          ++ weight_warning (leb high after) after high (codes "high");
    }

unfoldable pub power_change : {F : Type 0} → SignerQuorumAnalysis → List (Change F)
power_change a =
    if a.before_weight == a.after_weight
    then []
    else record {
      path = codes "Thresholds.EffectiveSigningPower";
      op = change_modified;
      before = uint a.before_weight;
      after = uint a.after_weight;
      before_note = codes "total signing weight " ++ itoa a.before_weight;
      after_note = codes "total signing weight " ++ itoa a.after_weight;
    }
      ∷ []

-- analyzeAccountQuorum: what it appends to the changes and to the warnings.
unfoldable pub quorum_of :
    {F : Type 0} → Option AccountEntry → Option AccountEntry → List (Change F) × List Text
unfolding power_change analyze_account_signers
quorum_of none none = ([], [])
quorum_of none (some r) =
    let a = analyze_account_signers none (some r) in (power_change a, a.warnings)
quorum_of (some l) right =
    let a = analyze_account_signers (some l) right in (power_change a, a.warnings)

module _ (go : GoLib) where
  unfoldable pub analyze_account_quorum :
      RawValue → RawValue → Node go.F → Node go.F → List (Change go.F) × List Text
  unfolding quorum_of extract_account_entry
  analyze_account_quorum left right left_node right_node =
      quorum_of (extract_account_entry go left left_node)
        (extract_account_entry go right right_node)
