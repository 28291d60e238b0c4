-- ===== src/LineDiff/Coverage.antt =====
-- The hunks of buildHunks against the alignment that they are cut from.
use stellar_xdr_lens.Prelude.{
  ◌+◌, ◌-◌, ◌*◌, ◌≤◌, ◌<◌, ◌≡◌, ◌⊎◌, ◌∷◌, zero, suc, [], true, false, refl, List, ℕ, Bool, arith,
  drop, Bool-cases, length, inl, inr, ltb, ◌∙◌, sym, take,
}
use stellar_xdr_lens.LineDiff.Hunks.{
  last_change, is_change, hunk_of, offset_at, line_offsets, old_width, new_width,
}
use stellar_xdr_lens.LineDiff.Align.{AlignedPair}

unfoldable pub starts_with_change : List AlignedPair → Bool
starts_with_change [] = false
starts_with_change (p ∷ ps) = is_change p

-- An index lies within one of some ranges.
abbrev pub Covered : List (ℕ × ℕ) → ℕ → Type 0
Covered [] k = ⊥
Covered ((start, end) ∷ ranges) k = ((start ≤ k) × (k < end)) ⊎ Covered ranges k

pub change_bound :
    (pairs : List AlignedPair) (k : ℕ) → starts_with_change (drop k pairs) ≡ true → k < length pairs
unfolding starts_with_change
change_bound [] zero h = absurd cc
change_bound [] (suc k) h = absurd cc
change_bound (p ∷ ps) zero h = omega arith
change_bound (p ∷ ps) (suc k) h = omega (arith, change_bound ps k h)

pub last_change_bound :
    (context j last : ℕ) (ps : List AlignedPair) → last ≤ j → last ≤ last_change context j last ps
unfolding last_change
last_change_bound context j last [] le = omega arith
last_change_bound context j last (p ∷ ps) le =
    let moved : j ≤ last_change context (suc j) j ps =
      last_change_bound context (suc j) j ps (omega arith) in
    let kept : last ≤ last_change context (suc j) last ps =
      last_change_bound context (suc j) last ps (omega arith) in
    elim (Bool-cases (is_change p)) [
      | inl e ↦ rw e (omega arith)
      | inr e ↦ elim (Bool-cases (ltb (2 * context) (j - last))) [
        | inl far ↦ rw (e, far) (omega arith)
        | inr near ↦ rw (e, near) kept
      ]
    ]

pub not_equal :
    (i k : ℕ) (p : AlignedPair) (rest pairs : List AlignedPair)
    → drop i pairs ≡ p ∷ rest
    → k ≡ i
    → is_change p ≡ false
    → starts_with_change (drop k pairs) ≡ true
    → ⊥
unfolding starts_with_change
not_equal i k p rest pairs e same equal h =
    let here : starts_with_change (p ∷ rest) ≡ true = rw (same, e) at h in
    let wrong : false ≡ true = sym equal ∙ here in absurd cc

-- The lines that some pairs take up on one side.
unfoldable pub lines_on : (AlignedPair → ℕ) → List AlignedPair → ℕ
lines_on width [] = 0
lines_on width (p ∷ ps) = width p + lines_on width ps

offset_at-take :
    (width : AlignedPair → ℕ) (before : ℕ) (pairs : List AlignedPair) (k : ℕ)
    → k ≤ length pairs
    → offset_at (line_offsets width before pairs) k ≡ before + lines_on width (take k pairs)
unfolding offset_at line_offsets lines_on
offset_at-take width before [] zero le = omega arith
offset_at-take width before [] (suc k) le = absurd (omega arith)
offset_at-take width before (p ∷ ps) zero le = omega arith
offset_at-take width before (p ∷ ps) (suc k) le =
    omega (arith, offset_at-take width (before + width p) ps k (omega arith))

lines_on-none : (width : AlignedPair → ℕ) (n : ℕ) → lines_on width (take n []) ≡ 0
unfolding lines_on
lines_on-none width zero = refl
lines_on-none width (suc n) = refl

lines_on-slice :
    (width : AlignedPair → ℕ) (pairs : List AlignedPair) (start end : ℕ)
    → start ≤ end
    → lines_on width (take end pairs)
      ≡ lines_on width (take start pairs) + lines_on width (take (end - start) (drop start pairs))
unfolding lines_on
lines_on-slice width pairs zero end le =
    let whole : end - 0 ≡ end = omega arith in rw whole (omega arith)
lines_on-slice width [] (suc start) zero le = absurd (omega arith)
lines_on-slice width [] (suc start) (suc end) le =
    let nothing : lines_on width (take (suc end - suc start) []) ≡ 0 = lines_on-none width _ in
    omega (arith, nothing)
lines_on-slice width (p ∷ ps) (suc start) zero le = absurd (omega arith)
lines_on-slice width (p ∷ ps) (suc start) (suc end) le =
    let size : suc end - suc start ≡ end - start = omega arith in
    rw size (omega (arith, lines_on-slice width ps start end (omega arith)))

-- The counts in the head of a hunk are the numbers of old and of new lines that it shows, if its bounds
-- are in order and within the alignment.
pub hunk_of-lines_on :
    (pairs : List AlignedPair) (start end : ℕ)
    → start ≤ end
    → end ≤ length pairs
    → let h = hunk_of pairs (start, end) in
      (h.old_count ≡ lines_on old_width h.lines) × (h.new_count ≡ lines_on new_width h.lines)
unfolding hunk_of
hunk_of-lines_on pairs start end ordered within_pairs = (
  omega (
    arith,
    offset_at-take old_width 0 pairs start (omega arith),
    offset_at-take old_width 0 pairs end within_pairs,
    lines_on-slice old_width pairs start end ordered,
  ),
  omega (
    arith,
    offset_at-take new_width 0 pairs start (omega arith),
    offset_at-take new_width 0 pairs end within_pairs,
    lines_on-slice new_width pairs start end ordered,
  ),
)
