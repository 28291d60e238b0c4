-- ===== src/Tests/Filters.antt =====
-- Filters of diff_filter.go. The glob here knows only `*` and literal segments.
use stellar_xdr_lens.Prelude.{
  ◌≡◌, ◌↔◌, ◌||◌, ◌∷◌, ◌++◌, [], true, some, refl, List, Text, Option, codes, Bool, text_eq,
}
use stellar_xdr_lens.Filter.Segments.{match_segments, any_suffix, match_first, glob_holds}
use stellar_xdr_lens.Filter.Selection.{Selects, match_segments-Selects, match_segments-below}

abbrev star_or_same : Text → Text → Option Bool
star_or_same pattern s = some (text_eq pattern (codes "*") || text_eq pattern s)

abbrev pattern_segments : List Text
pattern_segments = codes "**" ∷ codes "Body" ∷ []

abbrev body_path : List Text
body_path = codes "Ops" ∷ codes "0" ∷ codes "Body" ∷ []

body_matches : match_segments star_or_same pattern_segments body_path ≡ true
unfolding match_segments any_suffix match_first glob_holds text_eq
body_matches = refl

match_segments-Selects_example :
    (match_segments star_or_same pattern_segments body_path ≡ true)
    ↔ Selects star_or_same pattern_segments body_path
match_segments-Selects_example = match_segments-Selects star_or_same pattern_segments body_path

matches_below :
    match_segments star_or_same pattern_segments (body_path ++ codes "Amount" ∷ []) ≡ true
matches_below =
    match_segments-below star_or_same pattern_segments body_path (codes "Amount" ∷ []) body_matches
