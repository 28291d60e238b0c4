-- ===== src/LineDiff/Hunks.antt =====
-- buildHunks, lineOffsets and rangeStart: the regions of an alignment that a unified diff shows.
use stellar_xdr_lens.Prelude.{
  ◌+◌, ◌-◌, ◌*◌, ◌∷◌, ◌==◌, if◌then◌else◌, zero, suc, [], true, false, List, ℕ, ℤ, Bool, drop, ltb,
  map, pos, take, length, negsuc,
}
use stellar_xdr_lens.LineDiff.Align.{AlignedPair, line_delete, line_insert, line_equal}
use Prim.Native.Nat.{min}

unfoldable pub is_change : AlignedPair → Bool
is_change p = elim p.kind [ line_equal ↦ false | _ ↦ true ]

-- lineOffsets: how many old and how many new lines stand before each boundary.
unfoldable pub old_width : AlignedPair → ℕ
old_width p = elim p.kind [ line_insert ↦ 0 | _ ↦ 1 ]

unfoldable pub new_width : AlignedPair → ℕ
new_width p = elim p.kind [ line_delete ↦ 0 | _ ↦ 1 ]

unfoldable pub line_offsets : (AlignedPair → ℕ) → ℕ → List AlignedPair → List ℕ
line_offsets width before [] = before ∷ []
line_offsets width before (p ∷ ps) = before ∷ line_offsets width (before + width p) ps

-- rangeStart
unfoldable pub range_start : ℕ → ℕ → ℕ
range_start lines_before count = if count == 0 then lines_before else lines_before + 1

-- The inner loop at j: the last change before a run of more than 2*context equal lines.
unfoldable pub last_change : ℕ → ℕ → ℕ → List AlignedPair → ℕ
last_change context j last [] = last
last_change context j last (p ∷ ps) =
    let moved = last_change context (suc j) j ps in
    let kept = last_change context (suc j) last ps in
    if is_change p then moved else if ltb (2 * context) (j - last) then last else kept

-- One round of the outer loop at i, where `rest` is what stands from i on.
unfoldable pub range_at :
    ℕ → List AlignedPair → (ℕ → List (ℕ × ℕ)) → ℕ → List AlignedPair → List (ℕ × ℕ)
range_at context pairs go_on i [] = []
range_at context pairs go_on i (p ∷ rest) =
    let end = min (last_change context i i (p ∷ rest) + 1 + context) (length pairs) in
    if is_change p then (i - context, end) ∷ go_on end else go_on (suc i)

-- The bounds of the hunks, start and end. Each round goes on behind i, so the number of pairs is fuel
-- enough.
unfoldable pub hunk_ranges : ℕ → ℕ → List AlignedPair → ℕ → List (ℕ × ℕ)
hunk_ranges zero context pairs i = []
hunk_ranges (suc fuel) context pairs i =
    range_at context pairs (λ k. hunk_ranges fuel context pairs k) i (drop i pairs)

pub record AlignedHunk : Type 0 where
  pub old_start : ℕ
  pub old_count : ℕ
  pub new_start : ℕ
  pub new_count : ℕ
  pub lines : List AlignedPair

-- The boundaries of a hunk are at most the number of pairs, where the offsets are.
unfoldable pub offset_at : List ℕ → ℕ → ℕ
offset_at [] k = 0
offset_at (n ∷ ns) zero = n
offset_at (n ∷ ns) (suc k) = offset_at ns k

unfoldable pub hunk_of : List AlignedPair → ℕ × ℕ → AlignedHunk
hunk_of pairs (start, end) =
    let old_before = line_offsets old_width 0 pairs in
    let new_before = line_offsets new_width 0 pairs in
    let old_n = offset_at old_before end - offset_at old_before start in
    let new_n = offset_at new_before end - offset_at new_before start in
    record {
      old_start = range_start (offset_at old_before start) old_n;
      old_count = old_n;
      new_start = range_start (offset_at new_before start) new_n;
      new_count = new_n;
      lines = take (end - start) (drop start pairs);
    }

unfoldable pub clamp_context : ℤ → ℕ
clamp_context (pos n) = n
clamp_context (negsuc n) = 0

-- buildHunks
unfoldable pub build_hunks : List AlignedPair → ℤ → List AlignedHunk
build_hunks pairs context =
    map (hunk_of pairs) (hunk_ranges (suc (length pairs)) (clamp_context context) pairs 0)
