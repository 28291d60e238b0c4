-- ===== src/Redact/Policy.antt =====
-- RedactionPolicy: its constructors, the classification of a node, and the parser of its names.
use stellar_xdr_lens.Prelude.{
  ◌+◌, ◌&&◌, ◌||◌, ◌∷◌, ◌==◌, if◌then◌else◌, [], true, false, none, some, Bool, List, Option, Text,
  text_eq, codes, leb, length, ltb, not,
}
use stellar_xdr_lens.Encoding.Space.{trim_space}
use stellar_xdr_lens.Tree.Path.{split}
use stellar_xdr_lens.Filter.Segments.{glob_holds}
use stellar_xdr_lens.Tree.Value.{Kind, scalar, struct, list}

abbrev pub redacted_hash : Text
redacted_hash = codes "<redacted hash>"

abbrev pub redacted_signature : Text
redacted_signature = codes "<redacted signature>"

abbrev pub redacted_identifier : Text
redacted_identifier = codes "<redacted identifier>"

abbrev pub redacted_field : Text
redacted_field = codes "<redacted>"

pub record RedactionPolicy : Type 0 where
  pub hashes : Bool
  pub signatures : Bool
  pub identifiers : Bool
  pub fields : List Text

-- The zero value.
abbrev pub no_redaction : RedactionPolicy
no_redaction = record { hashes = false; signatures = false; identifiers = false; fields = [] }

unfoldable pub enabled : RedactionPolicy → Bool
enabled p = p.hashes || (p.signatures || (p.identifiers || ltb 0 (length p.fields)))

unfoldable pub redact_hashes : RedactionPolicy
redact_hashes = record no_redaction { hashes = true }

unfoldable pub redact_signatures : RedactionPolicy
redact_signatures = record no_redaction { signatures = true }

unfoldable pub redact_hashes_and_signatures : RedactionPolicy
redact_hashes_and_signatures = record no_redaction { hashes = true; signatures = true }

unfoldable pub redact_identifiers : RedactionPolicy
redact_identifiers = record no_redaction { identifiers = true }

-- The cases of a `switch` on a string.
unfoldable pub one_of : List Text → Text → Bool
unfolding text_eq
one_of [] s = false
one_of (t ∷ ts) s = text_eq s t || one_of ts s

-- The switch on the type name, whose cases fall out of it when their category is off.
unfoldable pub placeholder_by_type : RedactionPolicy → Text → Option Text
unfolding one_of
placeholder_by_type p t =
    if one_of (codes "Hash" ∷ codes "Uint256" ∷ codes "HashX" ∷ codes "PreAuthTx" ∷ []) t
    then (if p.hashes then some redacted_hash else none)
    else if one_of (codes "Signature" ∷ codes "SignatureHint" ∷ []) t
    then (if p.signatures then some redacted_signature else none)
    else if one_of
        (codes "ContractId"
          ∷ codes "PoolId"
          ∷ codes "ClaimableBalanceId"
          ∷ codes "LiquidityPoolId"
          ∷ [])
        t
    then (if p.identifiers then some redacted_identifier else none)
    else none

unfoldable pub placeholder_by_name : RedactionPolicy → Text → Option Text
unfolding one_of
placeholder_by_name p key =
    if p.signatures
      && one_of
          (codes "Hint"
            ∷ codes "Ed25519"
            ∷ codes "HashX"
            ∷ codes "PreAuthTx"
            ∷ codes "Signature"
            ∷ [])
          key
    then some redacted_signature
    else none

unfoldable pub first_placeholder : Option Text → Option Text → Option Text
first_placeholder (some s) later = some s
first_placeholder none later = later

unfoldable pub placeholder_of_scalar : RedactionPolicy → Text → Text → Kind → Option Text
unfolding first_placeholder placeholder_by_type placeholder_by_name
placeholder_of_scalar p key t scalar =
    first_placeholder (placeholder_by_type p t) (placeholder_by_name p key)
placeholder_of_scalar p key t struct = none
placeholder_of_scalar p key t list = none

module _ (glob : Text → Text → Option Bool) where
  -- `glob` is path.Match, and `none` its error.
  unfoldable pub field_selected : Text → Text → Bool
  unfolding text_eq glob_holds
  field_selected pattern key =
      not (length pattern == 0) && (text_eq pattern key || glob_holds glob (glob pattern key))

  unfoldable pub any_field : List Text → Text → Bool
  unfolding field_selected
  any_field [] key = false
  any_field (pattern ∷ patterns) key = field_selected pattern key || any_field patterns key

  unfoldable pub matches_field : RedactionPolicy → Text → Bool
  unfolding any_field
  matches_field p key = not (length key == 0) && any_field p.fields key

  -- placeholderFor on the name, the type name and the kind of a node, which is all that it reads.
  unfoldable pub placeholder_for : RedactionPolicy → Text → Text → Kind → Option Text
  unfolding enabled matches_field placeholder_of_scalar
  placeholder_for p key t k =
      if not (enabled p)
      then none
      else if matches_field p key
      then some redacted_field
      else placeholder_of_scalar p key t k

-- strings.ToLower. Only the dotted capital I and the Kelvin sign become ASCII letters; other letters
-- beyond ASCII are left as they are, since what they become is no letter of a name either.
unfoldable pub to_lower : Text → Text
to_lower [] = []
to_lower (c ∷ []) = (if leb b'A' c && leb c b'Z' then c + 32 else c) ∷ []
to_lower (c ∷ d ∷ []) =
    let rest = to_lower (d ∷ []) in
    if (c == 0xc4) && (d == 0xb0)
    then b'i' ∷ []
    else (if leb b'A' c && leb c b'Z' then c + 32 else c) ∷ rest
to_lower (c ∷ d ∷ e ∷ s) =
    let rest = to_lower (d ∷ e ∷ s) in
    let rest2 = to_lower (e ∷ s) in
    let rest3 = to_lower s in
    if (c == 0xc4) && (d == 0xb0)
    then b'i' ∷ rest2
    else if (c == 0xe2) && ((d == 0x84) && (e == 0xaa))
    then b'k' ∷ rest3
    else (if leb b'A' c && leb c b'Z' then c + 32 else c) ∷ rest

-- One category name; `none` is ErrInvalidArgument.
unfoldable pub with_category : RedactionPolicy → Text → Option RedactionPolicy
unfolding one_of text_eq
with_category p s =
    if length s == 0
    then some p
    else if text_eq s (codes "all")
    then some (record p { hashes = true; signatures = true; identifiers = true })
    else if one_of (codes "hashes" ∷ codes "hash" ∷ []) s
    then some (record p { hashes = true })
    else if one_of (codes "signatures" ∷ codes "signature" ∷ codes "sigs" ∷ []) s
    then some (record p { signatures = true })
    else if one_of (codes "identifiers" ∷ codes "identifier" ∷ codes "ids" ∷ []) s
    then some (record p { identifiers = true })
    else none

unfoldable pub bind_policy :
    Option RedactionPolicy → (RedactionPolicy → Option RedactionPolicy) → Option RedactionPolicy
bind_policy none f = none
bind_policy (some p) f = f p

-- The inner loop, over the parts of one argument.
unfoldable pub with_names : RedactionPolicy → List Text → Option RedactionPolicy
unfolding bind_policy with_category to_lower trim_space
with_names p [] = some p
with_names p (s ∷ names) =
    bind_policy (with_category p (to_lower (trim_space s))) (λ p'. with_names p' names)

unfoldable pub with_arguments : RedactionPolicy → List Text → Option RedactionPolicy
unfolding bind_policy with_names split
with_arguments p [] = some p
with_arguments p (raw ∷ args) =
    bind_policy (with_names p (split b',' raw)) (λ p'. with_arguments p' args)

unfoldable pub redaction_policy_from_names : List Text → Option RedactionPolicy
unfolding with_arguments
redaction_policy_from_names names = with_arguments no_redaction names
