-- ===== src/Patch/RoundTrip.antt =====
-- A reader of JSON pointers behind the code that writes them.
use mathlib.Core.Path.{ap₂, subst}
use stellar_xdr_lens.Prelude.{
  ◌≡◌, ◌&&◌, ◌∷◌, ◌++◌, ◌==◌, if◌then◌else◌, [], false, refl, Text, ℕ, Bool-cases, List, codes, inl,
  map, ap, inr, sym, ◌∙◌, true, ==_iff, All, All-append, append-nil, append_assoc,
}
use stellar_xdr_lens.Patch.Pointer.{
  escape_pointer_token, needs_escape, replace_all, json_pointer, write_tokens, pointer_segments,
}
use stellar_xdr_lens.Tree.Path.{split, split_go}

-- RFC 6901: ~1 stands for a slash and ~0 for a tilde.
unfoldable pub unescape : Text → Text
unescape [] = []
unescape (c ∷ []) = c ∷ []
unescape (c ∷ d ∷ s) =
    let rest = unescape s in
    let plain = unescape (d ∷ s) in
    if (c == b'~') && (d == b'1')
    then b'/' ∷ rest
    else if (c == b'~') && (d == b'0')
    then b'~' ∷ rest
    else c ∷ plain

-- The tokens of a pointer, which is empty or starts with a slash.
unfoldable pub read_pointer : Text → List Text
unfolding split unescape
read_pointer [] = []
read_pointer (c ∷ s) = map unescape (split b'/' s)

-- One byte at a time.
unfoldable escape_byte : ℕ → Text
escape_byte c = if c == b'~' then codes "~0" else if c == b'/' then codes "~1" else c ∷ []

unfoldable escape_bytes : Text → Text
unfolding escape_byte
escape_bytes [] = []
escape_bytes (c ∷ s) = escape_byte c ++ escape_bytes s

true_is_no_false : true ≡ false → ⊥
true_is_no_false h = cc

escape_bytes-plain : (s : Text) → needs_escape s ≡ false → escape_bytes s ≡ s
unfolding escape_bytes needs_escape
escape_bytes-plain [] h = refl
escape_bytes-plain (c ∷ s) h = elim (Bool-cases (c == b'~')) [
  | inl e ↦ absurd (true_is_no_false (rw e at h))
  | inr e ↦ elim (Bool-cases (c == b'/')) [
    | inl f ↦ absurd (true_is_no_false (rw (e, f) at h))
    | inr f ↦ rw (e, f) (ap (λ t. c ∷ t) (escape_bytes-plain s (rw (e, f) at h)))
  ]
]

replace_all-twice :
    (s : Text) → replace_all b'/' (codes "~1") (replace_all b'~' (codes "~0") s) ≡ escape_bytes s
unfolding replace_all escape_bytes
replace_all-twice [] = refl
replace_all-twice (c ∷ s) = elim (Bool-cases (c == b'~')) [
  | inl e ↦ rw e (ap (λ t. b'~' ∷ b'0' ∷ t) (replace_all-twice s))
  | inr e ↦ elim (Bool-cases (c == b'/')) [
    | inl f ↦ rw (e, f) (ap (λ t. b'~' ∷ b'1' ∷ t) (replace_all-twice s))
    | inr f ↦ rw (e, f) (ap (λ t. c ∷ t) (replace_all-twice s))
  ]
]

escape_pointer_token_lem : (s : Text) → escape_pointer_token s ≡ escape_bytes s
unfolding escape_pointer_token
escape_pointer_token_lem s = elim (Bool-cases (needs_escape s)) [
  | inl e ↦ rw e (replace_all-twice s)
  | inr e ↦ rw e (sym (escape_bytes-plain s e))
]

unescape-plain : (c : ℕ) (t : Text) → (c == b'~') ≡ false → unescape (c ∷ t) ≡ c ∷ unescape t
unfolding unescape
unescape-plain c [] e = refl
unescape-plain c (d ∷ t) e = rw e refl

unescape-escape_bytes : (s : Text) → unescape (escape_bytes s) ≡ s
unfolding unescape escape_bytes
unescape-escape_bytes [] = refl
unescape-escape_bytes (c ∷ s) = elim (Bool-cases (c == b'~')) [
  | inl e ↦
      let is_tilde = (==_iff c b'~').0 e in
      rw e (ap₂ (λ x t. x ∷ t) (sym is_tilde) (unescape-escape_bytes s))
  | inr e ↦ elim (Bool-cases (c == b'/')) [
    | inl f ↦ rw (e, f) (ap₂ (λ x t. x ∷ t) (sym ((==_iff c b'/').0 f)) (unescape-escape_bytes s))
    | inr f ↦
        rw (e, f) (unescape-plain c (escape_bytes s) e ∙ ap (λ t. c ∷ t) (unescape-escape_bytes s))
  ]
]

abbrev NoSlash : ℕ → Type 0
NoSlash c = (c == b'/') ≡ false

escape_byte-NoSlash : (c : ℕ) → All NoSlash (escape_byte c)
unfolding escape_byte
escape_byte-NoSlash c = elim (Bool-cases (c == b'~')) [
  | inl e ↦ rw e (refl, (refl, tt))
  | inr e ↦ elim (Bool-cases (c == b'/')) [
    | inl f ↦ rw (e, f) (refl, (refl, tt))
    | inr f ↦ rw (e, f) (f, tt)
  ]
]

escape_bytes-NoSlash : (s : Text) → All NoSlash (escape_bytes s)
unfolding escape_bytes
escape_bytes-NoSlash [] = tt
escape_bytes-NoSlash (c ∷ s) =
    All-append NoSlash (escape_byte c) (escape_bytes s) (escape_byte-NoSlash c)
      (escape_bytes-NoSlash s)

-- A token ends at the next slash or at the end.
split_go-token :
    (e cur s : Text)
    → All NoSlash e
    → split_go b'/' cur (e ++ (b'/' ∷ s)) ≡ (cur ++ e) ∷ split_go b'/' [] s
unfolding split_go
split_go-token [] cur s h = ap (λ t. t ∷ split_go b'/' [] s) (sym (append-nil cur))
split_go-token (c ∷ e) cur s (h, hs) = rw h (
    split_go-token e (cur ++ c ∷ []) s hs
    ∙ ap (λ t. t ∷ split_go b'/' [] s) (append_assoc cur (c ∷ []) e))

split_go-last : (e cur : Text) → All NoSlash e → split_go b'/' cur e ≡ (cur ++ e) ∷ []
unfolding split_go
split_go-last [] cur h = ap (λ t. t ∷ []) (sym (append-nil cur))
split_go-last (c ∷ e) cur (h, hs) =
    rw h (split_go-last e (cur ++ c ∷ []) hs ∙ ap (λ t. t ∷ []) (append_assoc cur (c ∷ []) e))

unescape-escape_pointer_token : (s : Text) → unescape (escape_pointer_token s) ≡ s
unescape-escape_pointer_token s = ap unescape (escape_pointer_token_lem s) ∙ unescape-escape_bytes s

escape_pointer_token-NoSlash : (s : Text) → All NoSlash (escape_pointer_token s)
escape_pointer_token-NoSlash s =
    subst (λ e. All NoSlash e) (sym (escape_pointer_token_lem s)) (escape_bytes-NoSlash s)

-- A pointer that was written is read back as its segments.
read_pointer-write_tokens : (segments : List Text) → read_pointer (write_tokens segments) ≡ segments
unfolding read_pointer write_tokens
read_pointer-write_tokens [] = refl
read_pointer-write_tokens (s ∷ []) =
    let e = escape_pointer_token s in
    ap (λ t. map unescape (split_go b'/' [] t)) (append-nil e)
    ∙ ap (map unescape) (split_go-last e [] (escape_pointer_token-NoSlash s))
    ∙ ap (λ t. t ∷ []) (unescape-escape_pointer_token s)
read_pointer-write_tokens (s ∷ t ∷ segments) =
    let e = escape_pointer_token s in
    let rest = escape_pointer_token t ++ write_tokens segments in
    ap (map unescape) (split_go-token e [] rest (escape_pointer_token-NoSlash s))
    ∙ ap₂ (λ u us. u ∷ us) (unescape-escape_pointer_token s)
        (read_pointer-write_tokens (t ∷ segments))

-- A reader of pointers finds the segments of the path in the pointer that jsonPointer writes for it.
pub read_pointer-json_pointer :
    (path : Text) → read_pointer (json_pointer path) ≡ pointer_segments path
unfolding json_pointer
read_pointer-json_pointer path = read_pointer-write_tokens (pointer_segments path)
