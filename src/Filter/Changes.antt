-- ===== src/Filter/Changes.antt =====
-- PathFilter and FilterChanges.
use stellar_xdr_lens.Prelude.{
  ◌&&◌, ◌||◌, ◌∷◌, ◌++◌, ◌==◌, if◌then◌else◌, [], true, false, none, some, Bool, List, Text, Option,
  length, not, text_eq,
}
use stellar_xdr_lens.Tree.Path.{split}
use stellar_xdr_lens.Diff.Change.{Change}
use stellar_xdr_lens.Encoding.Space.{trim_space}
use stellar_xdr_lens.Filter.Segments.{match_change_pattern, path_segments, any_depth}
use stellar_xdr_lens.Diff.Scalar.{is_some}

pub record PathFilter : Type 0 where
  pub includes : List Text
  pub excludes : List Text

-- Empty, of a filter that is not nil.
unfoldable pub filter_empty : PathFilter → Bool
filter_empty f = (length f.includes == 0) && (length f.excludes == 0)

unfoldable pub pieces : List Text → List Text
pieces [] = []
pieces (raw ∷ raws) = split b',' raw ++ pieces raws

unfoldable pub trimmed_pieces : List Text → List Text
trimmed_pieces [] = []
trimmed_pieces (p ∷ ps) =
    let rest = trimmed_pieces ps in if length (trim_space p) == 0 then rest else trim_space p ∷ rest

module _ (glob : Text → Text → Option Bool) where
  unfoldable pub valid_segments : List Text → Bool
  valid_segments [] = true
  valid_segments (s ∷ ss) = (text_eq s any_depth || is_some (glob s [])) && valid_segments ss

  -- validatePattern
  unfoldable pub valid_pattern : Text → Bool
  valid_pattern pattern = valid_segments (path_segments pattern)

  unfoldable pub all_valid : List Text → Bool
  all_valid [] = true
  all_valid (p ∷ ps) = valid_pattern p && all_valid ps

  -- normalizePatterns; `none` is its error.
  unfoldable pub normalize_patterns : List Text → Option (List Text)
  normalize_patterns patterns =
      let ps = trimmed_pieces (pieces patterns) in if all_valid ps then some ps else none

  unfoldable pub both_patterns : Option (List Text) → Option (List Text) → Option PathFilter
  both_patterns (some xs) (some ys) = some record { includes = xs; excludes = ys }
  both_patterns (some xs) none = none
  both_patterns none ys = none

  -- NewPathFilter
  unfoldable pub new_path_filter : List Text → List Text → Option PathFilter
  new_path_filter include exclude =
      both_patterns (normalize_patterns include) (normalize_patterns exclude)

  unfoldable pub any_pattern : List Text → Text → Bool
  any_pattern [] path = false
  any_pattern (p ∷ ps) path = match_change_pattern glob p path || any_pattern ps path

  -- Matches, of a filter that is not nil.
  unfoldable pub filter_matches : PathFilter → Text → Bool
  filter_matches f path =
      if not (length f.includes == 0) && not (any_pattern f.includes path)
      then false
      else not (any_pattern f.excludes path)

  unfoldable pub selected_changes : {F : Type 0} → PathFilter → List (Change F) → List (Change F)
  selected_changes f [] = []
  selected_changes f (c ∷ cs) =
      let rest = selected_changes f cs in if filter_matches f c.path then c ∷ rest else rest

  -- FilterChanges
  unfoldable pub filter_changes : {F : Type 0} → PathFilter → List (Change F) → List (Change F)
  filter_changes f cs = if filter_empty f then cs else selected_changes f cs
