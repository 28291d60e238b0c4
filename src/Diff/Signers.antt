-- ===== src/Diff/Signers.antt =====
-- signer_diff.go: lists of signers and signatures compared as multisets.
use stellar_xdr_lens.Prelude.{
  ◌-◌, ◌&&◌, ◌||◌, ◌∷◌, ◌++◌, ◌==◌, if◌then◌else◌, suc, [], Bool, List, Text, itoa, length, ltb,
  text_eq, ℕ, codes, map, not,
}
use stellar_xdr_lens.Tree.Value.{
  GoLib, Kind, Node, children, kind_eq, name, kind, nil, scalar, str, join_with, struct, list, node,
  go_type, show_val, Nodes, more, empty,
}
use stellar_xdr_lens.Diff.Change.{Change, change_added, change_removed}
use stellar_xdr_lens.Tree.Path.{PathSeg, split_path}
use stellar_xdr_lens.Tree.Query.{node_string}

pub record MultisetItem : Type 0 where
  pub key : Text
  pub label : Text

-- The maps of counts, as functions that are 0 on a missing key.
abbrev pub Counts : Type 0
Counts = Text → ℕ

abbrev pub no_counts : Counts
no_counts key = 0

unfoldable pub increment : Counts → Text → Counts
increment m k key = if text_eq key k then suc (m key) else m key

unfoldable pub decrement : Counts → Text → Counts
decrement m k key = if text_eq key k then m key - 1 else m key

unfoldable pub count_items : Counts → List MultisetItem → Counts
count_items m [] = m
count_items m (it ∷ items) = count_items (increment m it.key) items

pub record SignerSetDiff : Type 0 where
  pub added_labels : List Text
  pub removed_labels : List Text
  pub common_labels : List Text

-- The loop over the left items: those that are common, and those that are removed.
unfoldable pub split_left : Counts → List MultisetItem → List Text × List Text
split_left remaining [] = ([], [])
split_left remaining (it ∷ items) =
    let consumed = split_left (decrement remaining it.key) items in
    let kept = split_left remaining items in
    if ltb 0 (remaining it.key)
    then (it.label ∷ consumed.0, consumed.1)
    else (kept.0, it.label ∷ kept.1)

-- The loop over the right items: those that are added.
unfoldable pub split_right : Counts → Counts → List MultisetItem → List Text
split_right left_counts consumed [] = []
split_right left_counts consumed (it ∷ items) =
    let counted = split_right left_counts (increment consumed it.key) items in
    let rest = split_right left_counts consumed items in
    if ltb (consumed it.key) (left_counts it.key) then counted else it.label ∷ rest

-- signerSetDiff
unfoldable pub signer_set_diff : List MultisetItem → List MultisetItem → SignerSetDiff
signer_set_diff left right =
    let sides = split_left (count_items no_counts right) left in
    record {
      added_labels = split_right (count_items no_counts left) no_counts right;
      removed_labels = sides.1;
      common_labels = sides.0;
    }

-- SignerSetDiff.Equal
unfoldable pub set_diff_equal : SignerSetDiff → Bool
set_diff_equal d = (length d.added_labels == 0) && (length d.removed_labels == 0)

-- isSignerCollection
unfoldable pub is_signer_collection : Text → Bool
is_signer_collection m =
    text_eq m (codes "Signatures")
    || (text_eq m (codes "Signers") || text_eq m (codes "ExtraSigners"))

unfoldable pub last_seg_name : List PathSeg → Text
last_seg_name [] = []
last_seg_name (seg ∷ []) = seg.seg_name
last_seg_name (seg ∷ next_seg ∷ segs) = last_seg_name (next_seg ∷ segs)

-- signerCollectionName, which operationCollectionName and eventCollectionName repeat.
unfoldable pub collection_name : {F : Type 0} → Text → Node F → Node F → Text
collection_name path a b =
    if not (length (name a) == 0)
    then name a
    else if not (length (name b) == 0)
    then name b
    else last_seg_name (split_path path)

module _ (go : GoLib) where
  unfoldable pub kind_number : Kind → Text
  kind_number scalar = codes "0"
  kind_number struct = codes "1"
  kind_number list = codes "2"

  unfoldable pub sized : Text → Text
  sized t = itoa (length t) ++ (codes ":" ++ t)

  unfoldable mutual
    -- writeCanonicalNode
    pub canonical_node : Node go.F → Text
    canonical_node (node m k t v n cs) =
        let inside = canonical_children cs in
        kind_number k
        ++ (codes ":"
            ++ (sized t
                ++ (codes ":"
                    ++ ((if kind_eq k scalar
                          then go_type go v ++ (codes "=" ++ show_val go v)
                          else inside)
                        ++ codes ";"))))

    pub canonical_children : Nodes go.F → Text
    canonical_children empty = []
    canonical_children (more c cs) = sized (name c) ++ (canonical_node c ++ canonical_children cs)

  unfoldable pub label_part : Node go.F → Text
  label_part c =
      if length (name c) == 0 then node_string go c else name c ++ (codes "=" ++ node_string go c)

  unfoldable pub label_parts : List (Node go.F) → List Text
  label_parts [] = []
  label_parts (c ∷ cs) =
      let rest = label_parts cs in if kind_eq (kind c) scalar then label_part c ∷ rest else rest

  -- renderNodeLabel
  unfoldable pub render_node_label : Node go.F → Text
  render_node_label n =
      let parts = label_parts (children n) in
      if kind_eq (kind n) scalar || (length parts == 0)
      then node_string go n
      else join_with (codes " ") parts

  unfoldable pub item_of : Node go.F → MultisetItem
  item_of n = record { key = canonical_node n; label = render_node_label n }

  unfoldable pub removed_label : Text → Text → Change go.F
  removed_label path label = record {
    path = path;
    op = change_removed;
    before = str label;
    after = nil;
    before_note = [];
    after_note = [];
  }

  unfoldable pub added_label : Text → Text → Change go.F
  added_label path label = record {
    path = path;
    op = change_added;
    before = nil;
    after = str label;
    before_note = [];
    after_note = [];
  }

  -- diffMultisetLists
  unfoldable pub diff_multiset_lists :
      List (Node go.F) → List (Node go.F) → Text → List (Change go.F)
  diff_multiset_lists left right path =
      let d = signer_set_diff (map item_of left) (map item_of right) in
      map (removed_label path) d.removed_labels ++ map (added_label path) d.added_labels
