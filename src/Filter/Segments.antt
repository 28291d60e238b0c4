-- ===== src/Filter/Segments.antt =====
-- pathSegments and matchSegments.
use stellar_xdr_lens.Prelude.{
  ◌+◌, ◌≡◌, ◌&&◌, ◌||◌, ◌∷◌, ◌++◌, ◌==◌, if◌then◌else◌, zero, suc, [], true, false, none, some,
  refl, List, Text, ℕ, Bool, Option, codes, length, take, text_eq, drop,
}
use stellar_xdr_lens.Tree.Path.{split, index_byte, split_go}

-- The inner loop of pathSegments. The fuel is the length of the part and one more: every round takes
-- a bracket away.
unfoldable pub part_segments : ℕ → Text → List Text
part_segments zero part = []
part_segments (suc fuel) part = if length part == 0 then [] else elim (index_byte b'[' part) [
  | none ↦ part ∷ []
  | some open_ ↦
      let front = if length (take open_ part) == 0 then [] else take open_ part ∷ [] in
      front ++ elim (index_byte b']' (drop open_ part)) [
        | none ↦ drop open_ part ∷ []
        | some width ↦
            let close = open_ + width in
            let rest = part_segments fuel (drop (close + 1) part) in
            drop (open_ + 1) (take close part) ∷ rest
      ]
]

unfoldable pub segments_of_parts : List Text → List Text
segments_of_parts [] = []
segments_of_parts (p ∷ ps) = part_segments (suc (length p)) p ++ segments_of_parts ps

-- pathSegments
unfoldable pub path_segments : Text → List Text
path_segments s = segments_of_parts (split b'.' s)

segments_run : path_segments (codes "Ops[0].Code") ≡ codes "Ops" ∷ codes "0" ∷ codes "Code" ∷ []
unfolding path_segments segments_of_parts part_segments split index_byte split_go
segments_run = refl

abbrev pub any_depth : Text
any_depth = codes "**"

-- The loop over the places where the rest of a pattern could start.
unfoldable pub any_suffix : (List Text → Bool) → List Text → Bool
any_suffix matches [] = matches []
any_suffix matches (s ∷ ss) = matches (s ∷ ss) || any_suffix matches ss

-- path.Match is a parameter: `none` is its error on a malformed pattern.
module _ (glob : Text → Text → Option Bool) where
  unfoldable pub glob_holds : Option Bool → Bool
  glob_holds none = false
  glob_holds (some matched) = matched

  unfoldable pub match_first : Text → (List Text → Bool) → List Text → Bool
  match_first p rest [] = false
  match_first p rest (s ∷ ss) = glob_holds (glob p s) && rest ss

  -- matchSegments
  unfoldable pub match_segments : List Text → List Text → Bool
  match_segments [] segments = true
  match_segments (p ∷ ps) segments =
      let rest = λ (ss : List Text). match_segments ps ss in
      if text_eq p any_depth then any_suffix rest segments else match_first p rest segments

  -- matchChangePattern
  unfoldable pub match_change_pattern : Text → Text → Bool
  match_change_pattern pattern change_path =
      match_segments (path_segments pattern) (path_segments change_path)
