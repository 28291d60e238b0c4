-- ===== src/Encoding/Base64/Length.antt =====
-- The decoder makes no more bytes than it reads.
use stellar_xdr_lens.Prelude.{
  ◌+◌, ◌≤◌, ◌≡◌, ◌∷◌, [], none, some, refl, Option, Text, length, ℕ, arith,
}
use stellar_xdr_lens.Encoding.Base64.{
  four, padded_groups, skip_newlines, std_decode, three, two, base64_value,
}

length-skip_newlines : (s : Text) → length (skip_newlines s) ≤ length s
unfolding skip_newlines
length-skip_newlines [] = omega arith
length-skip_newlines (c ∷ s) = ground (arith, length-skip_newlines s)

four-length :
    (a b c d : Option ℕ) (r : Option Text) (n : ℕ) (out : Text)
    → ((t : Text) → r ≡ some t → length t ≤ n)
    → four a b c d r ≡ some out
    → length out ≤ 4 + n
unfolding four
four-length (some a) (some b) (some c) (some d) (some t) n out h e = ground (arith, h t refl)
four-length (some a) (some b) (some c) (some d) none n out h e = cc
four-length (some a) (some b) (some c) none r n out h e = cc
four-length (some a) (some b) none d r n out h e = cc
four-length (some a) none c d r n out h e = cc
four-length none b c d r n out h e = cc

three-length : (a b c : Option ℕ) (out : Text) → three a b c ≡ some out → length out ≤ 4
unfolding three
three-length a b c out e = ground arith

two-length : (a b : Option ℕ) (out : Text) → two a b ≡ some out → length out ≤ 4
unfolding two
two-length a b out e = ground arith

length-padded_groups : (s out : Text) → padded_groups s ≡ some out → length out ≤ length s
unfolding padded_groups
length-padded_groups [] out h = ground arith
length-padded_groups (a ∷ []) out h = cc
length-padded_groups (a ∷ b ∷ []) out h = cc
length-padded_groups (a ∷ b ∷ c ∷ []) out h = cc
length-padded_groups (a ∷ b ∷ c ∷ d ∷ []) out h = ground (
  arith,
  two-length (base64_value a) (base64_value b) out,
  three-length (base64_value a) (base64_value b) (base64_value c) out,
  four-length (base64_value a) (base64_value b) (base64_value c) (base64_value d) (some []) 0 out
      (λ t e. ground arith),
)
length-padded_groups (a ∷ b ∷ c ∷ d ∷ e ∷ s) out h = omega (
  arith,
  four-length (base64_value a) (base64_value b) (base64_value c) (base64_value d)
      (padded_groups (e ∷ s)) (length (e ∷ s)) out (λ t eq. length-padded_groups (e ∷ s) t eq) h,
)

pub length-std_decode : (s out : Text) → std_decode s ≡ some out → length out ≤ length s
unfolding std_decode
length-std_decode s out h =
    omega (arith, length-padded_groups (skip_newlines s) out h, length-skip_newlines s)
