-- ===== src/Diff/Change.antt =====
-- Changes, their options, and the small helpers of diff.go.
use stellar_xdr_lens.Prelude.{
  ◌+◌, ◌∷◌, ◌++◌, if◌then◌else◌, ◌==◌, [], false, none, some, Bool, List, Option, Text, ℕ, codes,
  length, ltb, itoa,
}
use stellar_xdr_lens.Tree.Value.{
  GoLib, Node, Val, nil, note, value, is_nil, join_with, node, show_val, str, to_list, scalar, list,
  struct,
}

pub data ChangeOp : Type 0 where
  change_modified change_added change_removed change_type_changed change_reordered : ChangeOp

unfoldable pub change_op_string : ChangeOp → Text
change_op_string change_modified = codes "modified"
change_op_string change_added = codes "added"
change_op_string change_removed = codes "removed"
change_op_string change_type_changed = codes "type_changed"
change_op_string change_reordered = codes "reordered"

pub record Change (F : Type 0) : Type 0 where
  pub path : Text
  pub op : ChangeOp
  pub before : Val F
  pub after : Val F
  pub before_note : Text
  pub after_note : Text

-- DiffOptions, as far as the walk reads them: `mask` is Mask.Matches, none where Mask is nil or empty.
pub record DiffOptions (F : Type 0) : Type 0 where
  pub align_lists : Bool
  pub unordered_signers : Bool
  pub mask : Option (Text → Bool)
  pub threshold : F
  pub diff_threshold : F

unfoldable pub is_masked : Option (Text → Bool) → Text → Bool
is_masked none path = false
is_masked (some matches) path = matches path

unfoldable pub join : Text → Text → Text
join path key =
    if length path == 0 then key else if length key == 0 then path else path ++ (codes "." ++ key)

-- path + "[" + strconv.Itoa(i) + "]"
unfoldable pub at_index : Text → ℕ → Text
at_index path i = path ++ (codes "[" ++ (itoa i ++ codes "]"))

module _ {F : Type 0} where
  -- The value that a change shows for a node.
  unfoldable pub leaf_value : Node F → Val F
  leaf_value (node m scalar t v n cs) = v
  leaf_value (node m list t v n cs) = str (b'[' ∷ (itoa (length (to_list cs)) ++ codes " item(s)]"))
  leaf_value (node m struct t v n cs) =
      if length t == 0 then str (codes "{...}") else str (codes "{" ++ (t ++ codes "}"))

  abbrev pub added : Text → Node F → Change F
  added path b = record {
    path = path;
    op = change_added;
    before = nil;
    after = leaf_value b;
    before_note = [];
    after_note = note b;
  }

  abbrev pub removed : Text → Node F → Change F
  removed path a = record {
    path = path;
    op = change_removed;
    before = leaf_value a;
    after = nil;
    before_note = note a;
    after_note = [];
  }

  abbrev pub type_changed : Text → Node F → Node F → Change F
  type_changed path a b = record {
    path = path;
    op = change_type_changed;
    before = leaf_value a;
    after = leaf_value b;
    before_note = note a;
    after_note = note b;
  }

  abbrev pub modified : Text → Node F → Node F → Change F
  modified path a b = record {
    path = path;
    op = change_modified;
    before = value a;
    after = value b;
    before_note = note a;
    after_note = note b;
  }

module _ (go : GoLib) where
  -- display
  unfoldable pub display : Val go.F → Text → Text
  display v remark =
      if is_nil v
      then (if length remark == 0 then codes "(none)" else remark)
      else if length remark == 0
      then show_val go v
      else show_val go v ++ (codes " (" ++ (remark ++ codes ")"))

  -- Change.String
  unfoldable pub change_string : Change go.F → Text
  change_string c = elim c.op [
    | change_added ↦ codes "+ " ++ (c.path ++ (codes " = " ++ display c.after c.after_note))
    | change_removed ↦ codes "- " ++ (c.path ++ (codes " = " ++ display c.before c.before_note))
    | change_reordered ↦
        codes "~ "
        ++ (c.path
            ++ (codes ": reordered from index "
                ++ (show_val go c.before ++ (codes " to " ++ show_val go c.after))))
    | _ ↦
        codes "~ "
        ++ (c.path
            ++ (codes ": "
                ++ (display c.before c.before_note
                    ++ (codes " -> " ++ display c.after c.after_note))))
  ]

-- DiffResult.Summary: how many changes of each kind.
pub record Tally : Type 0 where
  pub modified_count : ℕ
  pub added_count : ℕ
  pub removed_count : ℕ
  pub reordered_count : ℕ

unfoldable pub tally_op : ChangeOp → Tally → Tally
tally_op change_added t = record t { added_count = t.added_count + 1 }
tally_op change_removed t = record t { removed_count = t.removed_count + 1 }
tally_op change_reordered t = record t { reordered_count = t.reordered_count + 1 }
tally_op _ t = record t { modified_count = t.modified_count + 1 }

unfoldable pub tally : {F : Type 0} → List (Change F) → Tally → Tally
tally [] t = t
tally (c ∷ cs) t = tally cs (tally_op c.op t)

abbrev pub zero_tally : Tally
zero_tally = record { modified_count = 0; added_count = 0; removed_count = 0; reordered_count = 0 }

unfoldable pub counted_part : ℕ → Text → List Text
counted_part n label = if ltb 0 n then (itoa n ++ label) ∷ [] else []

unfoldable pub diff_summary : {F : Type 0} → List (Change F) → Text
diff_summary changes =
    let t = tally changes zero_tally in
    if length changes == 0
    then codes "no differences"
    else join_with (codes ", ") (
        counted_part t.modified_count (codes " changed")
        ++ (counted_part t.added_count (codes " added")
            ++ (counted_part t.removed_count (codes " removed")
                ++ counted_part t.reordered_count (codes " reordered"))))
