-- ===== src/Filter/Selection.antt =====
-- matchSegments against a relation that says what a pattern selects.
use stellar_xdr_lens.Prelude.{
  ◌≡◌, ◌∷◌, [], true, false, none, some, refl, Text, Option, Bool, List, Bool-cases, ap, text_eq,
  inl, inr, ◌↔◌, ◌++◌, or_true,
}
use stellar_xdr_lens.Filter.Segments.{
  any_suffix, glob_holds, match_first, match_segments, any_depth,
}

module _ (glob : Text → Text → Option Bool) where
  -- A pattern selects a path where its segments match the first ones of the path, each `**` taking any
  -- number of segments.
  pub data Selects : List Text → List Text → Type 0 where
    all_below : {ss : List Text} → Selects [] ss
    segment :
        {p s : Text} {ps ss : List Text}
        → text_eq p any_depth ≡ false
        → glob p s ≡ some true
        → Selects ps ss
        → Selects (p ∷ ps) (s ∷ ss)
    any_none :
        {p : Text} {ps ss : List Text}
        → text_eq p any_depth ≡ true
        → Selects ps ss
        → Selects (p ∷ ps) ss
    any_more :
        {p s : Text} {ps ss : List Text}
        → text_eq p any_depth ≡ true
        → Selects (p ∷ ps) ss
        → Selects (p ∷ ps) (s ∷ ss)

  suffix_sound :
      (p : Text) (ps ss : List Text)
      → text_eq p any_depth ≡ true
      → ((us : List Text) → match_segments glob ps us ≡ true → Selects ps us)
      → any_suffix (λ us. match_segments glob ps us) ss ≡ true
      → Selects (p ∷ ps) ss
  unfolding any_suffix
  suffix_sound p ps [] e h m = any_none e (h [] m)
  suffix_sound p ps (s ∷ ss) e h m = elim (Bool-cases (match_segments glob ps (s ∷ ss))) [
    | inl here ↦ any_none e (h (s ∷ ss) here)
    | inr not_here ↦ any_more e (suffix_sound p ps ss e h (rw not_here at m))
  ]

  glob_some : (found : Option Bool) → glob_holds glob found ≡ true → found ≡ some true
  unfolding glob_holds
  glob_some none h = absurd cc
  glob_some (some b) h = ap some h

  first_sound :
      (p : Text) (ps ss : List Text)
      → text_eq p any_depth ≡ false
      → ((us : List Text) → match_segments glob ps us ≡ true → Selects ps us)
      → match_first glob p (λ us. match_segments glob ps us) ss ≡ true
      → Selects (p ∷ ps) ss
  unfolding match_first
  first_sound p ps [] e h m = absurd cc
  first_sound p ps (s ∷ ss) e h m = elim (Bool-cases (glob_holds glob (glob p s))) [
    | inl good ↦ segment e (glob_some (glob p s) good) (h ss (rw good at m))
    | inr bad ↦ absurd (let m2 : false ≡ true = rw bad at m in cc)
  ]

  sound : (ps ss : List Text) → match_segments glob ps ss ≡ true → Selects ps ss
  unfolding match_segments
  sound [] ss m = all_below
  sound (p ∷ ps) ss m = elim (Bool-cases (text_eq p any_depth)) [
    | inl e ↦ suffix_sound p ps ss e (λ us. sound ps us) (rw e at m)
    | inr e ↦ first_sound p ps ss e (λ us. sound ps us) (rw e at m)
  ]

  any_suffix_first : (f : List Text → Bool) (ss : List Text) → f ss ≡ true → any_suffix f ss ≡ true
  unfolding any_suffix
  any_suffix_first f [] h = h
  any_suffix_first f (s ∷ ss) h = rw h

  complete : (ps ss : List Text) → Selects ps ss → match_segments glob ps ss ≡ true
  unfolding match_segments any_suffix match_first glob_holds
  complete ps ss all_below = refl
  complete (p ∷ ps) (s ∷ ss) (segment e g h) = rw (e, g, complete ps ss h)
  complete (p ∷ ps) ss (any_none e h) =
      rw e (any_suffix_first (λ us. match_segments glob ps us) ss (complete ps ss h))
  complete (p ∷ ps) (s ∷ ss) (any_more e h) =
      let later : any_suffix (λ us. match_segments glob ps us) ss ≡ true =
        rw e at (complete (p ∷ ps) ss h) in
      rw (e, later, or_true (match_segments glob ps (s ∷ ss)))

  -- matchSegments answers true on exactly the paths that the pattern selects.
  pub match_segments-Selects :
      (ps ss : List Text) → (match_segments glob ps ss ≡ true) ↔ Selects ps ss
  match_segments-Selects ps ss = (sound ps ss, complete ps ss)

  below_selected :
      (ps ss more_segments : List Text) → Selects ps ss → Selects ps (ss ++ more_segments)
  below_selected ps ss us all_below = all_below
  below_selected (p ∷ ps) (s ∷ ss) us (segment e g h) = segment e g (below_selected ps ss us h)
  below_selected (p ∷ ps) ss us (any_none e h) = any_none e (below_selected ps ss us h)
  below_selected (p ∷ ps) (s ∷ ss) us (any_more e h) = any_more e (below_selected (p ∷ ps) ss us h)

  -- A pattern that matches a path matches every path below it.
  pub match_segments-below :
      (ps ss more_segments : List Text)
      → match_segments glob ps ss ≡ true
      → match_segments glob ps (ss ++ more_segments) ≡ true
  match_segments-below ps ss us h = complete ps (ss ++ us) (below_selected ps ss us (sound ps ss h))
