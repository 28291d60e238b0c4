-- ===== src/Tree/Path.antt =====
-- splitPath: a path such as a.b[2].c as its segments, and the strings functions that it uses.
use mathlib.Core.Option
use stellar_xdr_lens.Prelude.{
  ◌+◌, ◌-◌, ◌*◌, ◌^◌, ◌≡◌, ◌&&◌, ◌∷◌, ◌++◌, if◌then◌else◌, ◌==◌, zero, suc, [], true, false, none,
  some, refl, Bool, List, Option, Text, codes, ℕ, ℤ, leb, length, ltb, negsuc, pos, drop, take,
}
use stellar_xdr_lens.Encoding.Space.{trim_run, space_size}

-- strings.IndexByte, and what stands before and behind the first occurrence.
unfoldable pub index_byte : ℕ → Text → Option ℕ
index_byte b [] = none
index_byte b (c ∷ s) = let later = index_byte b s in if c == b then some 0 else Option.map suc later

-- strings.Split at a byte: one part more than the byte occurs.
unfoldable pub split_go : ℕ → Text → Text → List Text
split_go b cur [] = cur ∷ []
split_go b cur (c ∷ s) =
    let cut = split_go b [] s in
    let keep = split_go b (cur ++ c ∷ []) s in if c == b then cur ∷ cut else keep

unfoldable pub split : ℕ → Text → List Text
unfolding split_go
split b s = split_go b [] s

-- The white space that Sscanf skips, which a newline is not.
unfoldable pub inner_space : Text → ℕ
inner_space [] = 0
inner_space (c ∷ s) = if c == b'\n' then 0 else space_size (c ∷ s)

unfoldable pub is_digit : ℕ → Bool
is_digit c = leb b'0' c && leb c b'9'

unfoldable pub scan_digits : ℕ → Text → ℕ
unfolding is_digit
scan_digits n [] = n
scan_digits n (c ∷ s) =
    let more_digits = scan_digits (n * 10 + (c - b'0')) s in if is_digit c then more_digits else n

unfoldable pub starts_with_digit : Text → Bool
unfolding is_digit
starts_with_digit [] = false
starts_with_digit (c ∷ s) = is_digit c

-- An int64 from a sign and digits; one that does not fit is an error.
unfoldable pub signed : Bool → ℕ → Option ℤ
signed false n = if ltb n (2 ^ 63) then some (pos n) else none
signed true zero = some (pos 0)
signed true (suc n) = if ltb n (2 ^ 63) then some (negsuc n) else none

unfoldable pub scan_signed : Bool → Text → Option ℤ
unfolding scan_digits starts_with_digit signed
scan_signed negative s = if starts_with_digit s then signed negative (scan_digits 0 s) else none

unfoldable pub scan_sign : Text → Option ℤ
unfolding scan_signed
scan_sign [] = none
scan_sign (c ∷ s) =
    if c == b'-'
    then scan_signed true s
    else if c == b'+'
    then scan_signed false s
    else scan_signed false (c ∷ s)

-- fmt.Sscanf(s, "%d", &idx): space, a sign, digits, and anything behind them.
unfoldable pub scan_int : Text → Option ℤ
unfolding inner_space scan_sign trim_run space_size
scan_int s = scan_sign (trim_run inner_space 0 s)

pub record PathSeg : Type 0 where
  pub seg_name : Text
  pub index : ℤ

abbrev pub no_index : ℤ
no_index = negsuc 0

unfoldable pub index_or_minus_one : Option ℤ → ℤ
index_or_minus_one none = no_index
index_or_minus_one (some i) = i

-- The inner loop of splitPath. The fuel is the length of the part: every round takes a bracket away.
unfoldable pub split_part : ℕ → Text → List PathSeg
unfolding index_byte scan_int index_or_minus_one
split_part zero s = []
split_part (suc fuel) s = elim (index_byte b'[' s) [
  | none ↦ if length s == 0 then [] else record { seg_name = s; index = no_index } ∷ []
  | some open_ ↦ elim (index_byte b']' (drop open_ s)) [
    | none ↦ record { seg_name = s; index = no_index } ∷ []
    | some width ↦
        let close = open_ + width in
        let inside = drop (open_ + 1) (take close s) in
        let rest = drop (close + 1) s in
        let segs = split_part fuel rest in
        record { seg_name = take open_ s; index = index_or_minus_one (scan_int inside) }
        ∷ (if length rest == 0 then [] else segs)
  ]
]

unfoldable pub split_parts : List Text → List PathSeg
unfolding split_part
split_parts [] = []
split_parts (p ∷ ps) =
    let rest = split_parts ps in
    if length p == 0 then rest else split_part (suc (length p)) p ++ rest

unfoldable pub split_path : Text → List PathSeg
unfolding split split_parts
split_path path = split_parts (split b'.' path)

split_runs :
    split_path (codes "a.b[2].c")
    ≡ record { seg_name = codes "a"; index = no_index }
      ∷ record { seg_name = codes "b"; index = pos 2 }
      ∷ record { seg_name = codes "c"; index = no_index }
      ∷ []
unfolding split_path
split_runs = refl
