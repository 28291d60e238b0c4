-- ===== src/Diff/Totals.antt =====
-- The totals of SummarizeChanges against the list of changes.
use stellar_xdr_lens.Prelude.{
  ◌+◌, ◌≤◌, ◌≡◌, ◌∷◌, [], refl, List, ℕ, Text, All, arith, Bool-cases, length, text_eq, inl, inr,
  none, some, Option, ltb, lt_of_ltb, le_of_not_ltb,
}
use stellar_xdr_lens.Diff.Stats.{
  Counters, DiffSection, add_change, bump, count_in, sum_changes, summarize_changes, sum_change,
  Summing, empty_section, path_depth, top_level_section, zero_summing, deeper, deepest_text,
}
use stellar_xdr_lens.Diff.Tallies.{
  Tallies, CountsIn, ops_of, section_at, sum_changes-Tallies, sum_changes-CountsIn,
}
use stellar_xdr_lens.Diff.Change.{
  Change, ChangeOp, change_modified, change_added, change_removed, change_type_changed,
  change_reordered,
}

unfoldable pub kinds_sum : Counters → ℕ
kinds_sum c = c.n_modified + c.n_added + c.n_removed + c.n_type_changed

unfoldable pub section_sum : List DiffSection → ℕ
section_sum [] = 0
section_sum (s ∷ ss) = s.section_total + section_sum ss

-- A section's total is the sum of its kinds.
abbrev pub IsBalanced : DiffSection → Type 0
IsBalanced s = s.section_total ≡ kinds_sum s.section_counts

-- Every path in a list is at most as deep as a bound.
abbrev pub NoDeeper : {F : Type 0} → ℕ → List (Change F) → Type 0
NoDeeper d cs = All (λ c. path_depth c.path ≤ d) cs

kinds_sum-add_change :
    (op : ChangeOp) (c : Counters) → kinds_sum (add_change op c) ≡ kinds_sum c + 1
unfolding kinds_sum add_change
kinds_sum-add_change change_modified c = omega arith
kinds_sum-add_change change_added c = omega arith
kinds_sum-add_change change_removed c = omega arith
kinds_sum-add_change change_type_changed c = omega arith
kinds_sum-add_change change_reordered c = omega arith

section_sum-bump :
    (path : Text) (op : ChangeOp) (ss : List DiffSection)
    → section_sum (bump path op ss) ≡ section_sum ss + 1
unfolding section_sum bump count_in
section_sum-bump path op [] = omega arith
section_sum-bump path op (s ∷ ss) = elim (Bool-cases (text_eq s.section_path path)) [
  | inl e ↦ rw e (omega arith)
  | inr e ↦ rw e (omega (arith, section_sum-bump path op ss))
]

count_in-IsBalanced : (op : ChangeOp) (s : DiffSection) → IsBalanced s → IsBalanced (count_in op s)
unfolding count_in
count_in-IsBalanced op s h = omega (arith, h, kinds_sum-add_change op s.section_counts)

bump-IsBalanced :
    (path : Text) (op : ChangeOp) (ss : List DiffSection)
    → All IsBalanced ss
    → All IsBalanced (bump path op ss)
unfolding bump
bump-IsBalanced path op [] h =
    (count_in-IsBalanced op (empty_section path) (unfold kinds_sum in refl), h)
bump-IsBalanced path op (s ∷ ss) (hs, h) = elim (Bool-cases (text_eq s.section_path path)) [
  | inl e ↦ rw e (count_in-IsBalanced op s hs, h)
  | inr e ↦ rw e (hs, bump-IsBalanced path op ss h)
]

unfoldable depth_of : Option (ℕ × Text) → ℕ
depth_of none = 0
depth_of (some (d, path)) = d

-- The depth that stands beside the deepest path is its depth.
abbrev DepthAgrees : Option (ℕ × Text) → Type 0
DepthAgrees none = Unit
DepthAgrees (some (d, path)) = d ≡ path_depth path

deeper-depth :
    (path : Text) (found : Option (ℕ × Text))
    → DepthAgrees found
    → (path_depth path ≤ depth_of (deeper path found))
      × (depth_of found ≤ depth_of (deeper path found))
      × DepthAgrees (deeper path found)
unfolding depth_of deeper
deeper-depth path none h = (omega arith, omega arith, refl)
deeper-depth path (some (d, q)) h = elim (Bool-cases (ltb d (path_depth path))) [
  | inl e ↦ let lt = lt_of_ltb d (path_depth path) e in rw e (omega arith, omega arith, refl)
  | inr e ↦ let le = le_of_not_ltb d (path_depth path) e in rw e (omega arith, omega arith, h)
]

depth-deepest_text :
    (found : Option (ℕ × Text))
    → DepthAgrees found
    → depth_of found ≤ path_depth (deepest_text found)
unfolding depth_of deepest_text
depth-deepest_text none h = omega arith
depth-deepest_text (some (d, path)) h = omega (arith, h)

module _ {F : Type 0} where
  kinds_sum-sum_changes :
      (cs : List (Change F)) (s : Summing)
      → kinds_sum (sum_changes cs s).counts ≡ kinds_sum s.counts + length cs
  unfolding sum_changes sum_change
  kinds_sum-sum_changes [] s = omega arith
  kinds_sum-sum_changes (c ∷ cs) s =
      omega (arith, kinds_sum-sum_changes cs (sum_change c s), kinds_sum-add_change c.op s.counts)

  section_sum-sum_changes :
      (cs : List (Change F)) (s : Summing)
      → section_sum (sum_changes cs s).sections ≡ section_sum s.sections + length cs
  unfolding sum_changes sum_change
  section_sum-sum_changes [] s = omega arith
  section_sum-sum_changes (c ∷ cs) s = omega (
    arith,
    section_sum-sum_changes cs (sum_change c s),
    section_sum-bump (top_level_section c.path) c.op s.sections,
  )

  sum_changes-IsBalanced :
      (cs : List (Change F)) (s : Summing)
      → All IsBalanced s.sections
      → All IsBalanced (sum_changes cs s).sections
  unfolding sum_changes sum_change
  sum_changes-IsBalanced [] s h = h
  sum_changes-IsBalanced (c ∷ cs) s h =
      sum_changes-IsBalanced cs (sum_change c s)
        (bump-IsBalanced (top_level_section c.path) c.op s.sections h)

  -- SummarizeChanges counts every change by its kind: the totals of additions, removals and type changes
  -- are the numbers of changes of these kinds, and the total of modifications counts all others. For
  -- every path the section that it has for this path, an empty one if it has none, counts exactly the
  -- changes whose path has it for its topLevelSection, in all and by the same kinds. The total is the
  -- sum of the four kinds and of the totals of all sections.
  pub summarize_changes-totals :
      (left_type right_type : Text) (changes : List (Change F))
      → let s = summarize_changes left_type right_type changes in
        Tallies (ops_of changes) s.totals
        × ((path : Text) → CountsIn path changes (section_at path s.sections))
        × (s.total ≡ kinds_sum s.totals)
        × (s.total ≡ section_sum s.sections)
  unfolding summarize_changes kinds_sum section_sum
  summarize_changes-totals left_type right_type changes = (
    sum_changes-Tallies changes,
    (λ path. sum_changes-CountsIn path changes),
    omega (arith, kinds_sum-sum_changes changes zero_summing),
    omega (arith, section_sum-sum_changes changes zero_summing),
  )

  -- In each section the total is the sum of its kinds.
  pub summarize_changes-IsBalanced :
      (left_type right_type : Text) (changes : List (Change F))
      → All IsBalanced (summarize_changes left_type right_type changes).sections
  unfolding summarize_changes kinds_sum
  summarize_changes-IsBalanced left_type right_type changes =
      sum_changes-IsBalanced changes zero_summing tt

  sum_changes-depth :
      (cs : List (Change F)) (s : Summing)
      → DepthAgrees s.deepest
      → let found = (sum_changes cs s).deepest in
        (depth_of s.deepest ≤ depth_of found) × NoDeeper (depth_of found) cs × DepthAgrees found
  unfolding sum_changes sum_change
  sum_changes-depth [] s h = (omega arith, _, h)
  sum_changes-depth (c ∷ cs) s h =
      let (deep, kept, agrees) = deeper-depth c.path s.deepest h in
      let (later, rest, found) = sum_changes-depth cs (sum_change c s) agrees in
      (omega arith, (omega arith, rest), found)

  NoDeeper-le : (d e : ℕ) (cs : List (Change F)) → d ≤ e → NoDeeper d cs → NoDeeper e cs
  NoDeeper-le d e [] le h = h
  NoDeeper-le d e (c ∷ cs) le (here, h) = (omega arith, NoDeeper-le d e cs le h)

  -- The path that SummarizeChanges names as the deepest is at least as deep as that of every change.
  pub summarize_changes-deepest :
      (left_type right_type : Text) (changes : List (Change F))
      → NoDeeper (path_depth (summarize_changes left_type right_type changes).deepest_path) changes
  unfolding summarize_changes
  summarize_changes-deepest left_type right_type changes =
      let (low, bound, agrees) = sum_changes-depth changes zero_summing _ in
      NoDeeper-le _ _ changes (depth-deepest_text _ agrees) bound
