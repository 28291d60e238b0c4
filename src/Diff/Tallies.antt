-- ===== src/Diff/Tallies.antt =====
-- The counters of SummarizeChanges against the kinds of the changes, over the whole and by section.
use stellar_xdr_lens.Prelude.{
  ◌+◌, ◌≡◌, ◌∷◌, [], refl, List, ℕ, Text, Bool, true, false, Bool-cases, length, text_eq,
  text_eq_iff, inl, inr, none, some, Option, if◌then◌else◌, suc, arith, ◌∙◌,
}
use stellar_xdr_lens.Diff.Stats.{
  Counters, DiffSection, add_change, bump, count_in, sum_changes, sum_change, Summing,
  empty_section, top_level_section, find_section, zero_summing,
}
use stellar_xdr_lens.Diff.Change.{
  Change, ChangeOp, change_modified, change_added, change_removed, change_type_changed,
  change_reordered,
}
use native.Mathlib.Nat.{zero-add}

-- How many of some kinds of changes pass a test.
unfoldable pub tally : (ChangeOp → Bool) → List ChangeOp → ℕ
tally test [] = 0
tally test (op ∷ ops) = let later = tally test ops in if test op then suc later else later

unfoldable pub is_addition : ChangeOp → Bool
is_addition change_added = true
is_addition change_modified = false
is_addition change_removed = false
is_addition change_type_changed = false
is_addition change_reordered = false

unfoldable pub is_removal : ChangeOp → Bool
is_removal change_removed = true
is_removal change_modified = false
is_removal change_added = false
is_removal change_type_changed = false
is_removal change_reordered = false

unfoldable pub is_type_change : ChangeOp → Bool
is_type_change change_type_changed = true
is_type_change change_modified = false
is_type_change change_added = false
is_type_change change_removed = false
is_type_change change_reordered = false

-- A modification or a change of the order.
unfoldable pub is_other_change : ChangeOp → Bool
is_other_change change_modified = true
is_other_change change_reordered = true
is_other_change change_added = false
is_other_change change_removed = false
is_other_change change_type_changed = false

unfoldable pub any_change : ChangeOp → Bool
any_change op = true

-- Counters that count some kinds of changes.
pub record Tallies (ops : List ChangeOp) (c : Counters) : Type 0 where
  pub additions : c.n_added ≡ tally is_addition ops
  pub removals : c.n_removed ≡ tally is_removal ops
  pub type_changes : c.n_type_changed ≡ tally is_type_change ops
  pub others : c.n_modified ≡ tally is_other_change ops

-- The kinds of some changes, and of those whose top-level section has a path.
unfoldable pub ops_of : {F : Type 0} → List (Change F) → List ChangeOp
ops_of [] = []
ops_of (c ∷ cs) = c.op ∷ ops_of cs

unfoldable pub ops_in : {F : Type 0} → Text → List (Change F) → List ChangeOp
ops_in path [] = []
ops_in path (c ∷ cs) =
    let later = ops_in path cs in
    if text_eq (top_level_section c.path) path then c.op ∷ later else later

unfoldable pub or_empty : Text → Option DiffSection → DiffSection
or_empty path none = empty_section path
or_empty path (some s) = s

-- What DiffStats.Section finds, or a section that counts nothing.
unfoldable pub section_at : Text → List DiffSection → DiffSection
section_at path ss = or_empty path (find_section path ss)

unfoldable bit : Bool → ℕ
bit true = 1
bit false = 0

module _ (test : ChangeOp → Bool) where
  module _ (n_of : Counters → ℕ)
      (counts_one : (op : ChangeOp) (c : Counters)
        → n_of (add_change op c) ≡ n_of c + bit (test op)) where
    tally-ops_of :
        {F : Type 0} (cs : List (Change F)) (s : Summing)
        → n_of (sum_changes cs s).counts ≡ n_of s.counts + tally test (ops_of cs)
    unfolding sum_changes sum_change tally ops_of bit
    tally-ops_of [] s = omega arith
    tally-ops_of (c ∷ cs) s =
        let ih = tally-ops_of cs (sum_change c s) in
        let one = counts_one c.op s.counts in
        elim (Bool-cases (test c.op)) [
          | inl e ↦ rw e (omega (arith, ih, rw e at one))
          | inr e ↦ rw e (omega (arith, ih, rw e at one))
        ]

  module _ (n_of : DiffSection → ℕ) (none_yet : (path : Text) → n_of (empty_section path) ≡ 0)
      (counts_one : (op : ChangeOp) (s : DiffSection)
        → n_of (count_in op s) ≡ n_of s + bit (test op)) where
    section_at-bump_same :
        (path q : Text) (op : ChangeOp) (ss : List DiffSection)
        → text_eq q path ≡ true
        → n_of (section_at path (bump q op ss)) ≡ n_of (section_at path ss) + bit (test op)
    unfolding section_at or_empty find_section bump count_in
    section_at-bump_same path q op [] e =
        rw e (omega (arith, counts_one op (empty_section q), none_yet q, none_yet path))
    section_at-bump_same path q op (s ∷ ss) e =
        let q_is : q ≡ path = (text_eq_iff q path).0 e in
        elim (Bool-cases (text_eq s.section_path path)) [
          | inl here ↦
              let there : text_eq s.section_path q ≡ true = rw q_is here in
              rw (there, here) (counts_one op s)
          | inr apart ↦
              let passed : text_eq s.section_path q ≡ false = rw q_is apart in
              rw (passed, apart) (section_at-bump_same path q op ss e)
        ]

    section_at-bump_other :
        (path q : Text) (op : ChangeOp) (ss : List DiffSection)
        → text_eq q path ≡ false
        → n_of (section_at path (bump q op ss)) ≡ n_of (section_at path ss)
    unfolding section_at or_empty find_section bump count_in
    section_at-bump_other path q op [] e = rw e refl
    section_at-bump_other path q op (s ∷ ss) e = elim (Bool-cases (text_eq s.section_path q)) [
      | inl there ↦
          let apart : text_eq s.section_path path ≡ false =
            rw ((text_eq_iff s.section_path q).0 there) e in
          rw (there, apart) refl
      | inr passed ↦ elim (Bool-cases (text_eq s.section_path path)) [
        | inl here ↦ rw (passed, here) refl
        | inr apart ↦ rw (passed, apart) (section_at-bump_other path q op ss e)
      ]
    ]

    tally-section_at :
        {F : Type 0} (path : Text) (cs : List (Change F)) (s : Summing)
        → n_of (section_at path (sum_changes cs s).sections)
          ≡ n_of (section_at path s.sections) + tally test (ops_in path cs)
    unfolding sum_changes sum_change tally ops_in bit
    tally-section_at path [] s = omega arith
    tally-section_at path (c ∷ cs) s =
        let q = top_level_section c.path in
        let ih = tally-section_at path cs (sum_change c s) in
        elim (Bool-cases (text_eq q path)) [
          | inl here ↦
              let one = section_at-bump_same path q c.op s.sections here in
              elim (Bool-cases (test c.op)) [
                | inl e ↦ rw (here, e) (omega (arith, ih, rw e at one))
                | inr e ↦ rw (here, e) (omega (arith, ih, rw e at one))
              ]
          | inr apart ↦
              rw apart (omega (arith, ih, section_at-bump_other path q c.op s.sections apart))
        ]

tally-any : (ops : List ChangeOp) → tally any_change ops ≡ length ops
unfolding tally any_change
tally-any [] = refl
tally-any (op ∷ ops) = omega (arith, tally-any ops)

additions_one :
    (op : ChangeOp) (c : Counters) → (add_change op c).n_added ≡ c.n_added + bit (is_addition op)
unfolding add_change bit is_addition
additions_one op c = ground arith

removals_one :
    (op : ChangeOp) (c : Counters) → (add_change op c).n_removed ≡ c.n_removed + bit (is_removal op)
unfolding add_change bit is_removal
removals_one op c = ground arith

type_changes_one :
    (op : ChangeOp) (c : Counters)
    → (add_change op c).n_type_changed ≡ c.n_type_changed + bit (is_type_change op)
unfolding add_change bit is_type_change
type_changes_one op c = ground arith

others_one :
    (op : ChangeOp) (c : Counters)
    → (add_change op c).n_modified ≡ c.n_modified + bit (is_other_change op)
unfolding add_change bit is_other_change
others_one op c = ground arith

any_one :
    (op : ChangeOp) (s : DiffSection)
    → (count_in op s).section_total ≡ s.section_total + bit (any_change op)
unfolding count_in bit any_change
any_one op s = refl

module _ {F : Type 0} where
  pub sum_changes-Tallies :
      (cs : List (Change F)) → Tallies (ops_of cs) (sum_changes cs zero_summing).counts
  sum_changes-Tallies cs = record {
    additions =
        tally-ops_of is_addition (λ c. c.n_added) additions_one cs zero_summing ∙ zero-add _;
    removals = tally-ops_of is_removal (λ c. c.n_removed) removals_one cs zero_summing ∙ zero-add _;
    type_changes =
        tally-ops_of is_type_change (λ c. c.n_type_changed) type_changes_one cs zero_summing
        ∙ zero-add _;
    others =
        tally-ops_of is_other_change (λ c. c.n_modified) others_one cs zero_summing ∙ zero-add _;
  }

  -- A section that counts the changes of one path, in all and by their kinds.
  pub record CountsIn (path : Text) (cs : List (Change F)) (s : DiffSection) : Type 0 where
    pub all_counted : s.section_total ≡ length (ops_in path cs)
    pub kinds_counted : Tallies (ops_in path cs) s.section_counts

  pub sum_changes-CountsIn :
      (path : Text) (cs : List (Change F))
      → CountsIn path cs (section_at path (sum_changes cs zero_summing).sections)
  unfolding section_at find_section or_empty count_in
  sum_changes-CountsIn path cs = record {
    all_counted = omega (
      arith,
      tally-any (ops_in path cs),
      tally-section_at any_change (λ s. s.section_total) (λ p. refl) any_one path cs zero_summing,
    );
    kinds_counted = record {
      additions =
          tally-section_at is_addition (λ s. s.section_counts.n_added) (λ p. refl)
            (λ op s. additions_one op s.section_counts) path cs zero_summing
          ∙ zero-add _;
      removals =
          tally-section_at is_removal (λ s. s.section_counts.n_removed) (λ p. refl)
            (λ op s. removals_one op s.section_counts) path cs zero_summing
          ∙ zero-add _;
      type_changes =
          tally-section_at is_type_change (λ s. s.section_counts.n_type_changed) (λ p. refl)
            (λ op s. type_changes_one op s.section_counts) path cs zero_summing
          ∙ zero-add _;
      others =
          tally-section_at is_other_change (λ s. s.section_counts.n_modified) (λ p. refl)
            (λ op s. others_one op s.section_counts) path cs zero_summing
          ∙ zero-add _;
    };
  }
