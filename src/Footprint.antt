-- ===== src/Footprint.antt =====
-- pkg/lens/footprint_diff.go: the difference of two footprints as sets of ledger keys. Keys are of the SDK:
-- `marshal` stands for MarshalBinary, and `summary` for ledgerKeySummary, whose text may be missing.
pub mod Sets
pub mod Laws
use stellar_xdr_lens.Prelude.{
  ◌∷◌, ◌++◌, [], ◌&&◌, if◌then◌else◌, ◌==◌, none, some, Bool, List, Text, Option, codes, length,
  one_of, itoa,
}
use stellar_xdr_lens.Errors.{Result, ok, err, stuck}
use stellar_xdr_lens.Tree.Value.{join_with}
use stellar_xdr_lens.Encoding.Hex.{hex_encode}

pub record FootprintKeySetDiff : Type 0 where
  pub added : List Text
  pub removed : List Text
  pub common : List Text

pub record FootprintDiff : Type 0 where
  pub read_only : FootprintKeySetDiff
  pub read_write : FootprintKeySetDiff

pub record FootprintKey : Type 0 where
  pub key : Text
  pub label : Text

-- xdr.LedgerFootprint.
pub record LedgerFootprint (K : Type 0) : Type 0 where
  pub read_only_keys : List K
  pub read_write_keys : List K

unfoldable pub key_sets_equal : FootprintKeySetDiff → Bool
key_sets_equal d = (length d.added == 0) && (length d.removed == 0)

unfoldable pub count_part : List Text → Text → List Text
count_part keys what = if length keys == 0 then [] else (itoa (length keys) ++ what) ∷ []

unfoldable pub key_set_summary : FootprintKeySetDiff → Text
unfolding key_sets_equal count_part join_with
key_set_summary d =
    if key_sets_equal d
    then codes "no footprint changes"
    else join_with (codes ", ") (
        count_part d.removed (codes " removed")
        ++ (count_part d.added (codes " added")
            ++ ((itoa (length d.common) ++ codes " common") ∷ [])))

unfoldable pub footprints_equal : FootprintDiff → Bool
unfolding key_sets_equal
footprints_equal d = key_sets_equal d.read_only && key_sets_equal d.read_write

unfoldable pub footprint_summary : FootprintDiff → Text
unfolding footprints_equal key_set_summary
footprint_summary d =
    if footprints_equal d
    then codes "no footprint changes"
    else codes "read-only: "
      ++ (key_set_summary d.read_only ++ (codes "; read-write: " ++ key_set_summary d.read_write))

-- The left keys, those that the right side has not and those that it has.
unfoldable pub left_keys : List Text → List FootprintKey → List Text × List Text
left_keys right [] = ([], [])
left_keys right (k ∷ ks) =
    let (removed, common) = left_keys right ks in
    if one_of k.key right then (removed, k.label ∷ common) else (k.label ∷ removed, common)

unfoldable pub right_keys : List Text → List FootprintKey → List Text
right_keys left [] = []
right_keys left (k ∷ ks) =
    let added = right_keys left ks in if one_of k.key left then added else k.label ∷ added

abbrev pub ids : List FootprintKey → List Text
ids [] = []
ids (k ∷ ks) = k.key ∷ ids ks

unfoldable pub key_set_diff : List FootprintKey → List FootprintKey → FootprintKeySetDiff
unfolding left_keys right_keys
key_set_diff left right =
    let (removed, common) = left_keys (ids right) left in
    record { added = right_keys (ids left) right; removed = removed; common = common }

module _ {A B : Type 0} where
  unfoldable pub then_result : Result A → (A → Result B) → Result B
  then_result (ok a) f = f a
  then_result (err e) f = err e
  then_result stuck f = stuck

module _ {K : Type 0} (marshal : K → Result Text) (summary : K → Option Text) where
  unfoldable pub label_of : Option Text → Text → Text
  label_of none id = codes "ledger key " ++ id
  label_of (some s) id = if length s == 0 then codes "ledger key " ++ id else s

  -- The loop over the keys behind those whose identities have been seen.
  unfoldable pub keys_behind : List Text → List K → Result (List FootprintKey)
  unfolding then_result label_of hex_encode
  keys_behind seen [] = ok []
  keys_behind seen (k ∷ ks) = then_result (marshal k) (λ b.
      let id = hex_encode b in
      let skipped = keys_behind seen ks in
      let taken =
        then_result (keys_behind (id ∷ seen) ks)
          (λ out. ok (record { key = id; label = label_of (summary k) id } ∷ out)) in
      if one_of id seen then skipped else taken)

  unfoldable pub footprint_keys : List K → Result (List FootprintKey)
  unfolding keys_behind
  footprint_keys ks = keys_behind [] ks

  unfoldable pub diff_footprint_keys : List K → List K → Result FootprintKeySetDiff
  unfolding then_result footprint_keys key_set_diff
  diff_footprint_keys left right =
      then_result (footprint_keys left)
        (λ l. then_result (footprint_keys right) (λ r. ok (key_set_diff l r)))

  unfoldable pub diff_footprints : LedgerFootprint K → LedgerFootprint K → Result FootprintDiff
  unfolding then_result diff_footprint_keys
  diff_footprints left right =
      then_result (diff_footprint_keys left.read_only_keys right.read_only_keys) (λ ro.
        then_result (diff_footprint_keys left.read_write_keys right.read_write_keys)
          (λ rw_keys. ok (record { read_only = ro; read_write = rw_keys })))
