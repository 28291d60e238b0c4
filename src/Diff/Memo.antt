-- ===== src/Diff/Memo.antt =====
-- extractMemoArm and memoValuesEquivalent: memos whose arms differ but say the same.
use stellar_xdr_lens.Prelude.{
  ◌+◌, ◌-◌, ◌*◌, ◌^◌, ◌&&◌, ◌||◌, ◌∷◌, ◌++◌, if◌then◌else◌, ◌==◌, [], false, none, some, List,
  Option, Text, ℕ, Bool, length, ltb, codes, text_eq, not,
}
use stellar_xdr_lens.Tree.Value.{
  GoLib, Node, Val, children, kind_eq, kind, nil, show_val, type_name, name, scalar, value, is_nil,
}
use stellar_xdr_lens.Tree.Path.{is_digit}
use stellar_xdr_lens.Diff.Change.{Change, change_modified}
use stellar_xdr_lens.Diff.Scalar.{as_number}

unfoldable pub parse_digits : ℕ → Text → Option ℕ
parse_digits n [] = some n
parse_digits n (c ∷ s) =
    let rest = parse_digits (n * 10 + (c - b'0')) s in if is_digit c then rest else none

-- strconv.ParseUint(s, 10, 64); `none` is the error.
unfoldable pub in_uint64 : Option ℕ → Option ℕ
in_uint64 none = none
in_uint64 (some n) = if ltb n (2 ^ 64) then some n else none

unfoldable pub parse_uint : Text → Option ℕ
parse_uint s = if length s == 0 then none else in_uint64 (parse_digits 0 s)

unfoldable pub is_memo_arm : Text → Bool
is_memo_arm m =
    text_eq m (codes "Text")
    || (text_eq m (codes "Id")
        || (text_eq m (codes "Hash") || (text_eq m (codes "Return") || text_eq m (codes "HashX"))))

module _ {F : Type 0} where
  -- isMemoStruct
  unfoldable pub is_memo_struct : Node F → Node F → Bool
  is_memo_struct a b = text_eq (type_name a) (codes "Memo") && text_eq (type_name b) (codes "Memo")

  unfoldable pub is_active_arm : Node F → Bool
  is_active_arm c = kind_eq (kind c) scalar && (is_memo_arm (name c) && not (is_nil (value c)))

  -- The loop of extractMemoArm, and the function.
  unfoldable pub memo_arm_of : List (Node F) → Text × Val F
  memo_arm_of [] = (codes "None", nil)
  memo_arm_of (c ∷ cs) =
      let later = memo_arm_of cs in if is_active_arm c then (name c, value c) else later

  unfoldable pub extract_memo_arm : Node F → Text × Val F
  extract_memo_arm n = memo_arm_of (children n)

module _ (go : GoLib) where
  unfoldable pub same_number : Option ℕ → Option go.F → Bool
  same_number (some n) (some f) = n == go.to_uint f
  same_number (some n) none = false
  same_number none f = false

  -- memoValuesEquivalent
  unfoldable pub memo_values_equivalent : Text → Val go.F → Text → Val go.F → Bool
  memo_values_equivalent left_type left_val right_type right_val =
      if text_eq left_type (codes "Text") && text_eq right_type (codes "Id")
      then same_number (parse_uint (show_val go left_val)) (as_number go right_val)
      else if text_eq left_type (codes "Id") && text_eq right_type (codes "Text")
      then same_number (parse_uint (show_val go right_val)) (as_number go left_val)
      else false

  -- The change that diffMemoSemantic reports for equivalent memos.
  unfoldable pub memo_change : Text → Text × Val go.F → Text × Val go.F → Change go.F
  memo_change path (left_type, left_val) (right_type, right_val) = record {
    path = path;
    op = change_modified;
    before = left_val;
    after = right_val;
    before_note = left_type ++ (codes " (semantically equivalent to " ++ (right_type ++ codes ")"));
    after_note = right_type ++ (codes " (semantically equivalent to " ++ (left_type ++ codes ")"));
  }
