-- ===== src/Prelude/Strings.antt =====
-- Text as its bytes: literals, the equality test, decimal numbers.
use Prim.Native.Nat.{ℕ, zero, suc, ◌+◌, ◌/◌, ◌%◌}
use Prim.Native.Char.{code}
use Prim.Native.String.{String}
use mathlib.Core.Path.{◌≡◌, refl}
use mathlib.Core.Logic.{◌↔◌}
use mathlib.Core.Bool.{Bool, true, false, ◌&&◌, ◌||◌}
use mathlib.Core.List.{List, [], ◌∷◌}
use native.Mathlib.Omega.{arith}
use stellar_xdr_lens.Prelude.Tests.{◌==◌, if◌then◌else◌}

abbrev pub Text : Type 0
Text = List ℕ

-- The code points of a literal: its bytes, since every literal of the program is ASCII.
abbrev pub codes : String → Text
codes String.[] = []
codes (String.◌∷◌ c s) = code c ∷ codes s

-- Go's `==` on strings.
unfoldable pub text_eq : Text → Text → Bool
text_eq [] [] = true
text_eq [] (y ∷ ys) = false
text_eq (x ∷ xs) [] = false
text_eq (x ∷ xs) (y ∷ ys) = (x == y) && text_eq xs ys

pub text_eq_iff : (s t : Text) → (text_eq s t ≡ true) ↔ (s ≡ t)
unfolding text_eq
text_eq_iff [] [] = ((λ h. refl), (λ h. refl))
text_eq_iff [] (y ∷ ys) = ((λ h. cc), (λ h. cc))
text_eq_iff (x ∷ xs) [] = ((λ h. cc), (λ h. cc))
text_eq_iff (x ∷ xs) (y ∷ ys) =
    ((λ h. ground (arith, text_eq_iff xs ys)), (λ h. ground (arith, text_eq_iff xs ys)))

pub text_eq_refl : (s : Text) → text_eq s s ≡ true
text_eq_refl s = (text_eq_iff s s).1 refl

-- strconv.Itoa and %d on a non-negative number. A number has fewer digits than its value, so the
-- fuel `suc n` is never used up.
unfoldable pub digits_of : ℕ → ℕ → Text → Text
digits_of zero n out = out
digits_of (suc f) n out =
    let more = digits_of f (n / 10) ((b'0' + n % 10) ∷ out) in
    if n / 10 == 0 then (b'0' + n % 10) ∷ out else more

unfoldable pub itoa : ℕ → Text
unfolding digits_of
itoa n = digits_of (suc n) n []

itoa_runs : itoa 1207 ≡ codes "1207"
unfolding itoa
itoa_runs = refl

-- strings.HasPrefix and strings.Contains.
unfoldable pub has_prefix : Text → Text → Bool
has_prefix s [] = true
has_prefix [] (p ∷ ps) = false
has_prefix (c ∷ s) (p ∷ ps) = (c == p) && has_prefix s ps

unfoldable pub contains : Text → Text → Bool
unfolding has_prefix
contains [] sub = has_prefix [] sub
contains (c ∷ s) sub = has_prefix (c ∷ s) sub || contains s sub

-- A text among some texts, as a case of a switch or a key of a set.
unfoldable pub one_of : Text → List Text → Bool
unfolding text_eq
one_of key [] = false
one_of key (k ∷ ks) = text_eq key k || one_of key ks
