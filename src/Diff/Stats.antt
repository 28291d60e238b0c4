-- ===== src/Diff/Stats.antt =====
-- pkg/lens/diff_stats.go: the statistics of a list of changes.
use stellar_xdr_lens.Prelude.{
  ◌+◌, ◌∷◌, ◌++◌, ◌==◌, if◌then◌else◌, [], none, some, List, Option, Text, ℕ, Bool, codes, length,
  ltb, text_eq, itoa, pos, negsuc,
}
use stellar_xdr_lens.Diff.Change.{
  Change, ChangeOp, change_added, change_removed, change_type_changed, counted_part,
}
use stellar_xdr_lens.Tree.Path.{PathSeg, split_path}
use stellar_xdr_lens.Tree.Value.{join_with}

pub record Counters : Type 0 where
  pub n_modified : ℕ
  pub n_added : ℕ
  pub n_removed : ℕ
  pub n_type_changed : ℕ

abbrev pub zero_counters : Counters
zero_counters = record { n_modified = 0; n_added = 0; n_removed = 0; n_type_changed = 0 }

-- addChange
unfoldable pub add_change : ChangeOp → Counters → Counters
add_change change_added c = record c { n_added = c.n_added + 1 }
add_change change_removed c = record c { n_removed = c.n_removed + 1 }
add_change change_type_changed c = record c { n_type_changed = c.n_type_changed + 1 }
add_change _ c = record c { n_modified = c.n_modified + 1 }

pub record DiffSection : Type 0 where
  pub section_path : Text
  pub section_total : ℕ
  pub section_counts : Counters

abbrev pub empty_section : Text → DiffSection
empty_section path = record {
  section_path = path;
  section_total = 0;
  section_counts = zero_counters;
}

unfoldable pub count_in : ChangeOp → DiffSection → DiffSection
count_in op s = record s {
  section_total = s.section_total + 1;
  section_counts = add_change op s.section_counts;
}

-- byPath and order, as the sections in the order of their first changes.
unfoldable pub bump : Text → ChangeOp → List DiffSection → List DiffSection
bump path op [] = count_in op (empty_section path) ∷ []
bump path op (s ∷ ss) =
    let later = bump path op ss in
    if text_eq s.section_path path then count_in op s ∷ ss else s ∷ later

unfoldable pub section_of_segs : List PathSeg → Text
section_of_segs [] = codes "(root)"
section_of_segs (seg ∷ segs) = elim seg.index [
  | pos i ↦ if length seg.seg_name == 0 then b'[' ∷ (itoa i ++ codes "]") else seg.seg_name
  | negsuc i ↦ seg.seg_name
]

-- topLevelSection and pathDepth
unfoldable pub top_level_section : Text → Text
top_level_section path = section_of_segs (split_path path)

unfoldable pub path_depth : Text → ℕ
path_depth path = length (split_path path)

-- The accumulators of the loop of SummarizeChanges. The path of the deepest change so far has its
-- depth beside it; none is the depth -1 before the first change.
pub record Summing : Type 0 where
  pub counts : Counters
  pub sections : List DiffSection
  pub deepest : Option (ℕ × Text)

unfoldable pub deeper : Text → Option (ℕ × Text) → Option (ℕ × Text)
deeper path none = some (path_depth path, path)
deeper path (some (d, q)) =
    if ltb d (path_depth path) then some (path_depth path, path) else some (d, q)

unfoldable pub sum_change : {F : Type 0} → Change F → Summing → Summing
sum_change c s = record {
  counts = add_change c.op s.counts;
  sections = bump (top_level_section c.path) c.op s.sections;
  deepest = deeper c.path s.deepest;
}

unfoldable pub sum_changes : {F : Type 0} → List (Change F) → Summing → Summing
sum_changes [] s = s
sum_changes (c ∷ cs) s = sum_changes cs (sum_change c s)

abbrev pub zero_summing : Summing
zero_summing = record { counts = zero_counters; sections = []; deepest = none }

pub record DiffStats : Type 0 where
  pub stats_left_type : Text
  pub stats_right_type : Text
  pub equal : Bool
  pub total : ℕ
  pub totals : Counters
  pub sections : List DiffSection
  pub deepest_path : Text

unfoldable pub deepest_text : Option (ℕ × Text) → Text
deepest_text none = []
deepest_text (some (d, path)) = path

-- SummarizeChanges
unfoldable pub summarize_changes : {F : Type 0} → Text → Text → List (Change F) → DiffStats
summarize_changes left_type right_type changes =
    let s = sum_changes changes zero_summing in
    record {
      stats_left_type = left_type;
      stats_right_type = right_type;
      equal = length changes == 0;
      total = length changes;
      totals = s.counts;
      sections = s.sections;
      deepest_path = deepest_text s.deepest;
    }

-- DiffStats.Section
unfoldable pub find_section : Text → List DiffSection → Option DiffSection
find_section path [] = none
find_section path (s ∷ ss) =
    let later = find_section path ss in if text_eq s.section_path path then some s else later

-- DiffStats.Summary
unfoldable pub stats_summary : DiffStats → Text
stats_summary s =
    if s.total == 0
    then codes "no differences"
    else itoa s.total
      ++ (codes " change(s): "
          ++ join_with (codes ", ") (
              counted_part s.totals.n_modified (codes " modified")
              ++ (counted_part s.totals.n_added (codes " added")
                  ++ (counted_part s.totals.n_removed (codes " removed")
                      ++ counted_part s.totals.n_type_changed (codes " type changed")))))
