-- ===== src/Patch/Pointer.antt =====
-- jsonPointer, escapePointerToken and pointerSegments, and the operations of a patch.
use stellar_xdr_lens.Prelude.{
  ◌+◌, ◌≡◌, ◌||◌, ◌∷◌, ◌++◌, ◌==◌, if◌then◌else◌, zero, suc, [], true, false, none, some, refl,
  Bool, List, Text, codes, ℕ, length, ltb, not, take, drop, ◌≤◌, Option, arith, ap, length-drop,
}
use stellar_xdr_lens.Tree.Path.{index_byte, split}

-- strings.ReplaceAll of one byte by a text.
unfoldable pub replace_all : ℕ → Text → Text → Text
replace_all b new [] = []
replace_all b new (c ∷ s) =
    let rest = replace_all b new s in if c == b then new ++ rest else c ∷ rest

-- strings.ContainsAny(token, "~/").
unfoldable pub needs_escape : Text → Bool
needs_escape [] = false
needs_escape (c ∷ s) = (c == b'~') || ((c == b'/') || needs_escape s)

unfoldable pub escape_pointer_token : Text → Text
unfolding needs_escape replace_all
escape_pointer_token token =
    if not (needs_escape token)
    then token
    else replace_all b'/' (codes "~1") (replace_all b'~' (codes "~0") token)

unfoldable pub when_some : Bool → Text → List Text → List Text
when_some true s segs = s ∷ segs
when_some false s segs = segs

-- Behind an opening bracket at `start`, with what is known of the closing one from there on.
unfoldable pub bracket_tokens : (Text → List Text) → Text → ℕ → Option ℕ → List Text
bracket_tokens go_on part start none = drop start part ∷ []
bracket_tokens go_on part start (some width) =
    let closing = width + start in
    drop (start + 1) (take closing part) ∷ go_on (drop (closing + 1) part)

unfoldable pub round_tokens : (Text → List Text) → Text → Option ℕ → List Text
unfolding when_some bracket_tokens index_byte
round_tokens go_on part none = part ∷ []
round_tokens go_on part (some start) =
    when_some (ltb 0 start) (take start part)
      (bracket_tokens go_on part start (index_byte b']' (drop start part)))

-- The inner loop of pointerSegments. Every round takes a bracket away.
unfoldable pub part_tokens : ℕ → Text → List Text
unfolding round_tokens index_byte
part_tokens fuel [] = []
part_tokens zero (c ∷ s) = []
part_tokens (suc fuel) (c ∷ s) = round_tokens (part_tokens fuel) (c ∷ s) (index_byte b'[' (c ∷ s))

bracket_tokens-same :
    (f g : Text → List Text) (part : Text) (start : ℕ) (closing : Option ℕ)
    → ((k : ℕ) → f (drop (k + 1) part) ≡ g (drop (k + 1) part))
    → bracket_tokens f part start closing ≡ bracket_tokens g part start closing
unfolding bracket_tokens
bracket_tokens-same f g part start none h = refl
bracket_tokens-same f g part start (some width) h =
    ap (λ ts. drop (start + 1) (take (width + start) part) ∷ ts) (h (width + start))

round_tokens-same :
    (f g : Text → List Text) (part : Text) (opening : Option ℕ)
    → ((k : ℕ) → f (drop (k + 1) part) ≡ g (drop (k + 1) part))
    → round_tokens f part opening ≡ round_tokens g part opening
unfolding round_tokens
round_tokens-same f g part none h = refl
round_tokens-same f g part (some start) h =
    ap (when_some (ltb 0 start) (take start part))
      (bracket_tokens-same f g part start (index_byte b']' (drop start part)) h)

-- More fuel than the length of the part changes nothing.
part_tokens-fuel :
    (f g : ℕ) (part : Text)
    → length part ≤ f
    → length part ≤ g
    → part_tokens f part ≡ part_tokens g part
unfolding part_tokens
part_tokens-fuel f g [] hf hg = refl
part_tokens-fuel zero g (c ∷ s) hf hg = absurd (omega arith)
part_tokens-fuel (suc f) zero (c ∷ s) hf hg = absurd (omega arith)
part_tokens-fuel (suc f) (suc g) (c ∷ s) hf hg =
    round_tokens-same (part_tokens f) (part_tokens g) (c ∷ s) (index_byte b'[' (c ∷ s)) (λ k.
      let shorter = length-drop (k + 1) (c ∷ s) in
      part_tokens-fuel f g (drop (k + 1) (c ∷ s)) (omega (arith, shorter, hf))
        (omega (arith, shorter, hg)))

unfoldable pub tokens_of_parts : List Text → List Text
unfolding part_tokens
tokens_of_parts [] = []
tokens_of_parts (p ∷ ps) = part_tokens (length p) p ++ tokens_of_parts ps

unfoldable pub pointer_segments : Text → List Text
unfolding split tokens_of_parts
pointer_segments change_path = tokens_of_parts (split b'.' change_path)

-- The loop of jsonPointer; no segment is the document root, "".
unfoldable pub write_tokens : List Text → Text
unfolding escape_pointer_token
write_tokens [] = []
write_tokens (segment ∷ segments) = b'/' ∷ (escape_pointer_token segment ++ write_tokens segments)

unfoldable pub json_pointer : Text → Text
unfolding pointer_segments write_tokens
json_pointer change_path = write_tokens (pointer_segments change_path)

bracketed : json_pointer (codes "Ops[0].a/b") ≡ codes "/Ops/0/a~1b"
unfolding json_pointer
bracketed = refl
