-- ===== src/Tree/Value.antt =====
-- The parts of Go that the model leaves open, the values of scalars, and the tree itself.
use stellar_xdr_lens.Prelude.{
  ◌∷◌, ◌++◌, [], true, false, Bool, List, Text, show_int, ℤ, codes, itoa, ℕ, Option, map,
}

-- Go's float64, of which the program uses these operations, and strconv.Quote. Nothing is assumed of
-- them.
pub record GoLib : Type 1 where
  pub F : Type 0
  pub zero_f : F
  pub of_int : ℤ → F
  pub sub_f : F → F → F
  pub abs_f : F → F
  pub floor_f : F → F
  pub eq_f : F → F → Bool
  pub lt_f : F → F → Bool
  pub le_f : F → F → Bool
  pub to_uint : F → ℕ
  pub parse_f : Text → Option F
  pub show_f : F → Text
  pub quote : Text → Text

pub data Kind : Type 0 where
  scalar struct list : Kind

unfoldable pub kind_eq : Kind → Kind → Bool
kind_eq scalar scalar = true
kind_eq struct struct = true
kind_eq list list = true
kind_eq _ _ = false

-- The payload of a scalar: string, bool, int64, uint64, float64, []byte, or nil.
pub data Val (F : Type 0) : Type 0 where
  nil : Val F
  str : Text → Val F
  bool : Bool → Val F
  int : ℤ → Val F
  uint : ℕ → Val F
  float : F → Val F
  bytes : Text → Val F

-- The fields in the source's order but the children last: name, kind, type name, value, note.
mutual
  pub data Node (F : Type 0) : Type 0 where
    node : Text → Kind → Text → Val F → Text → Nodes F → Node F

  pub data Nodes (F : Type 0) : Type 0 where
    empty : Nodes F
    more : Node F → Nodes F → Nodes F

module _ {F : Type 0} where
  abbrev pub name : Node F → Text
  name (node m k t v n cs) = m

  abbrev pub kind : Node F → Kind
  kind (node m k t v n cs) = k

  abbrev pub type_name : Node F → Text
  type_name (node m k t v n cs) = t

  abbrev pub value : Node F → Val F
  value (node m k t v n cs) = v

  abbrev pub note : Node F → Text
  note (node m k t v n cs) = n

  -- The children as a list.
  abbrev pub to_list : Nodes F → List (Node F)
  to_list empty = []
  to_list (more c cs) = c ∷ to_list cs

  abbrev pub children : Node F → List (Node F)
  children (node m k t v n cs) = to_list cs

  abbrev pub from_list : List (Node F) → Nodes F
  from_list [] = empty
  from_list (c ∷ cs) = more c (from_list cs)

  unfoldable pub is_nil : Val F → Bool
  is_nil nil = true
  is_nil _ = false

unfoldable pub join_with : Text → List Text → Text
join_with sep [] = []
join_with sep (t ∷ []) = t
join_with sep (t ∷ u ∷ ts) = t ++ (sep ++ join_with sep (u ∷ ts))

unfoldable pub show_bool : Bool → Text
show_bool true = codes "true"
show_bool false = codes "false"

module _ (fl : GoLib) where
  -- fmt's %v.
  unfoldable pub show_val : Val fl.F → Text
  unfolding show_bool join_with show_int itoa
  show_val nil = codes "<nil>"
  show_val (str s) = s
  show_val (bool b) = show_bool b
  show_val (int z) = show_int z
  show_val (uint n) = itoa n
  show_val (float f) = fl.show_f f
  show_val (bytes bs) = b'[' ∷ (join_with (codes " ") (map itoa bs) ++ codes "]")

  -- fmt's %T.
  unfoldable pub go_type : Val fl.F → Text
  go_type nil = codes "<nil>"
  go_type (str s) = codes "string"
  go_type (bool b) = codes "bool"
  go_type (int z) = codes "int64"
  go_type (uint n) = codes "uint64"
  go_type (float f) = codes "float64"
  go_type (bytes bs) = codes "[]uint8"
