-- ===== src/Diff/Ledger/Keys.antt =====
-- The ledger keys that diff.go shows, one extractor for each type of entry.
use mathlib.Core.Option
use stellar_xdr_lens.Prelude.{
  ◌&&◌, ◌||◌, ◌∷◌, ◌++◌, if◌then◌else◌, ◌==◌, [], none, some, List, Option, Text, Bool, codes, not,
  text_eq, length, itoa,
}
use stellar_xdr_lens.Tree.Value.{GoLib, Node, is_nil, children, value, show_val}
use stellar_xdr_lens.Diff.Ledger.Fields.{
  arm_children, fields_of, is_struct_named, last_of, text_field, number_field, struct_field,
  first_found,
}
use stellar_xdr_lens.Diff.Scalar.{or_else, with_default}
use stellar_xdr_lens.Tree.Query.{child}

module _ (go : GoLib) where
  -- "<label>(<field>)" from the first such field of an arm.
  unfoldable pub labelled : Text → Option Text → Text
  labelled label none = label ++ codes "(<unknown>)"
  labelled label (some t) = label ++ (codes "(" ++ (t ++ codes ")"))

  unfoldable pub simple_key : Text → Text → Text → Node go.F → Text
  simple_key label arm key d = labelled label (first_found (text_field go key) (fields_of arm d))

  unfoldable pub extract_account_key : Node go.F → Text
  extract_account_key d = simple_key (codes "Account") (codes "Account") (codes "AccountId") d

  unfoldable pub extract_claimable_balance_key : Node go.F → Text
  extract_claimable_balance_key d =
      simple_key (codes "ClaimableBalance") (codes "ClaimableBalance") (codes "BalanceId") d

  unfoldable pub extract_liquidity_pool_key : Node go.F → Text
  extract_liquidity_pool_key d =
      simple_key (codes "LiquidityPool") (codes "LiquidityPool") (codes "LiquidityPoolId") d

  unfoldable pub extract_contract_code_key : Node go.F → Text
  extract_contract_code_key d =
      simple_key (codes "ContractCode") (codes "ContractCode") (codes "Hash") d

  unfoldable pub extract_config_setting_key : Node go.F → Text
  extract_config_setting_key d =
      simple_key (codes "ConfigSetting") (codes "ConfigSetting") (codes "ConfigSettingId") d

  unfoldable pub extract_ttl_key : Node go.F → Text
  extract_ttl_key d = simple_key (codes "TTL") (codes "TTL") (codes "KeyHash") d

  -- "<label>(<one>, <two>)" where both texts are there.
  unfoldable pub paired_key : Text → Text → Text → Text → Text
  paired_key label one two shown =
      if not (length one == 0) && not (length two == 0)
      then label ++ (codes "(" ++ (one ++ (codes ", " ++ (shown ++ codes ")"))))
      else label ++ codes "(<unknown>)"

  -- The last text of one field among some.
  unfoldable pub last_text : Text → List (Node go.F) → Text
  last_text key cs = last_of (text_field go key) [] cs

  unfoldable pub is_alpha_num : Node go.F → Bool
  is_alpha_num n = is_struct_named (codes "AlphaNum4") n || is_struct_named (codes "AlphaNum12") n

  unfoldable pub alpha_num_fields : List (Node go.F) → List (Node go.F)
  alpha_num_fields [] = []
  alpha_num_fields (c ∷ cs) = arm_children (is_alpha_num c) c ++ alpha_num_fields cs

  -- extractAssetSummary
  unfoldable pub extract_asset_summary : Node go.F → Text
  extract_asset_summary n =
      let asset_type = last_text (codes "Type") (children n) in
      let fields = alpha_num_fields (children n) in
      let code_text = last_text (codes "AssetCode") fields in
      let issuer = last_text (codes "Issuer") fields in
      if text_eq asset_type (codes "AssetTypeNative")
        || text_eq asset_type (codes "LedgerEntryTypeNative")
      then codes "native"
      else if not (length code_text == 0) && not (length issuer == 0)
      then code_text ++ (codes ":" ++ issuer)
      else asset_type

  unfoldable pub scval_arms : List Text
  scval_arms =
      codes "Sym"
      ∷ codes "Str"
      ∷ codes "Address"
      ∷ codes "U32"
      ∷ codes "U64"
      ∷ codes "I32"
      ∷ codes "I64"
      ∷ codes "U128"
      ∷ codes "I128"
      ∷ codes "Bool"
      ∷ codes "Bytes"
      ∷ []

  unfoldable pub arm_value : Option (Node go.F) → Option Text
  arm_value none = none
  arm_value (some c) = if is_nil (value c) then none else some (show_val go (value c))

  -- The loop over the arms: the first that is there, with its text.
  unfoldable pub first_arm : Node go.F → List Text → Option (Text × Text)
  first_arm n [] = none
  first_arm n (arm ∷ arms) =
      or_else (Option.map (λ t. (arm, t)) (arm_value (child n arm))) (first_arm n arms)

  -- extractScValSummary
  unfoldable pub extract_scval_summary : Node go.F → Text
  extract_scval_summary n = elim (first_arm n scval_arms) [
    | some (arm, t) ↦ arm ++ (codes ":" ++ t)
    | none ↦ with_default [] (arm_value (some n))
  ]

  unfoldable pub extract_trustline_key : Node go.F → Text
  extract_trustline_key d =
      let fields = fields_of (codes "Trustline") d in
      let account = last_text (codes "AccountId") fields in
      let asset = last_of (struct_field go extract_asset_summary (codes "Asset")) [] fields in
      paired_key (codes "Trustline") account asset asset

  unfoldable pub extract_offer_key : Node go.F → Text
  extract_offer_key d =
      let fields = fields_of (codes "Offer") d in
      let seller = last_text (codes "SellerID") fields in
      let offer = last_of (number_field go (codes "OfferID")) 0 fields in
      if length seller == 0
      then codes "Offer(<unknown>)"
      else codes "Offer(" ++ (seller ++ (codes ", #" ++ (itoa offer ++ codes ")")))

  unfoldable pub extract_data_key : Node go.F → Text
  extract_data_key d =
      let fields = fields_of (codes "Data") d in
      let account = last_text (codes "AccountId") fields in
      let data_name = last_text (codes "DataName") fields in
      paired_key (codes "Data") account data_name (go.quote data_name)

  unfoldable pub extract_contract_data_key : Node go.F → Text
  extract_contract_data_key d =
      let fields = fields_of (codes "ContractData") d in
      let contract = last_text (codes "Contract") fields in
      let key = last_of (struct_field go extract_scval_summary (codes "Key")) [] fields in
      paired_key (codes "ContractData") contract key key

  -- The switch of extractLedgerKey; an entry of another type has no key.
  unfoldable pub key_of_type : Text → Node go.F → Option Text
  key_of_type t d =
      if text_eq t (codes "LedgerEntryTypeAccount")
      then some (extract_account_key d)
      else if text_eq t (codes "LedgerEntryTypeTrustline")
      then some (extract_trustline_key d)
      else if text_eq t (codes "LedgerEntryTypeOffer")
      then some (extract_offer_key d)
      else if text_eq t (codes "LedgerEntryTypeData")
      then some (extract_data_key d)
      else if text_eq t (codes "LedgerEntryTypeClaimableBalance")
      then some (extract_claimable_balance_key d)
      else if text_eq t (codes "LedgerEntryTypeLiquidityPool")
      then some (extract_liquidity_pool_key d)
      else if text_eq t (codes "LedgerEntryTypeContractData")
      then some (extract_contract_data_key d)
      else if text_eq t (codes "LedgerEntryTypeContractCode")
      then some (extract_contract_code_key d)
      else if text_eq t (codes "LedgerEntryTypeConfigSetting")
      then some (extract_config_setting_key d)
      else if text_eq t (codes "LedgerEntryTypeTTL")
      then some (extract_ttl_key d)
      else none

  unfoldable pub key_at_type : Node go.F → Option Text → Option Text
  key_at_type d none = none
  key_at_type d (some t) = key_of_type t d

  unfoldable pub key_of_data : Node go.F → Option Text
  key_of_data d =
      if is_struct_named (codes "Data") d
      then first_found (λ c. key_at_type d (text_field go (codes "Type") c)) (children d)
      else none

  -- extractLedgerKey
  unfoldable pub extract_ledger_key : Node go.F → Text
  extract_ledger_key n = with_default [] (first_found key_of_data (children n))
