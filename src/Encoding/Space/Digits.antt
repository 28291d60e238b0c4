-- ===== src/Encoding/Space/Digits.antt =====
-- TrimSpace on base64 digits: a newline behind them is all that it takes off.
use stellar_xdr_lens.Prelude.{
  ◌<◌, ◌≡◌, ◌∷◌, ◌++◌, [], refl, Text, All, length, arith, ℕ, zero, suc, ap, append-nil,
}
use stellar_xdr_lens.Encoding.Space.{
  space_size, space_size_back, trim_run, trim_space, is_ascii_space, is_latin_space, is_wide_space,
  is_general_space,
}
use stellar_xdr_lens.Encoding.Base64.RoundTrip.{IsDigit}
use mathlib.Core.List.{reverse_aux, reverse-append, reverse, reverse-reverse}

space_size-IsDigit : (c : ℕ) (s : Text) → IsDigit c → space_size (c ∷ s) ≡ 0
unfolding space_size is_ascii_space is_latin_space is_wide_space
space_size-IsDigit c [] h = ground arith
space_size-IsDigit c (d ∷ []) h = ground arith
space_size-IsDigit c (d ∷ e ∷ s) h = ground arith

space_size_back-IsDigit : (c : ℕ) (s : Text) → IsDigit c → space_size_back (c ∷ s) ≡ 0
unfolding space_size_back is_ascii_space is_latin_space is_wide_space is_general_space
space_size_back-IsDigit c [] h = ground arith
space_size_back-IsDigit c (d ∷ []) h = ground arith
space_size_back-IsDigit c (d ∷ e ∷ s) h = ground arith

trim_run-size :
    (size : Text → ℕ) (c : ℕ) (s : Text) (n : ℕ)
    → size (c ∷ s) ≡ n
    → trim_run size 0 (c ∷ s) ≡ elim n as (λ _. Text) [ zero ↦ c ∷ s | suc k ↦ trim_run size k s ]
unfolding trim_run
trim_run-size size c s n e =
    ap (λ m. elim m as (λ _. Text) [ zero ↦ c ∷ s | suc k ↦ trim_run size k s ]) e

trim_left-IsDigit :
    (s t : Text) → 0 < length s → All IsDigit s → trim_run space_size 0 (s ++ t) ≡ s ++ t
trim_left-IsDigit [] t pos h = absurd (omega arith)
trim_left-IsDigit (c ∷ s) t pos (hc, h) =
    trim_run-size space_size c (s ++ t) 0 (space_size-IsDigit c (s ++ t) hc)

trim_right-IsDigit : (s : Text) → All IsDigit s → trim_run space_size_back 0 s ≡ s
trim_right-IsDigit [] h = unfold trim_run in refl
trim_right-IsDigit (c ∷ s) (hc, h) =
    trim_run-size space_size_back c s 0 (space_size_back-IsDigit c s hc)

newline_size : (s : Text) → space_size_back (b'\n' ∷ s) ≡ 1
unfolding space_size_back is_ascii_space
newline_size [] = refl
newline_size (c ∷ []) = refl
newline_size (c ∷ d ∷ s) = refl

newline_off : (s : Text) → trim_run space_size_back 0 (b'\n' ∷ s) ≡ trim_run space_size_back 0 s
newline_off s = trim_run-size space_size_back b'\n' s 1 (newline_size s)

All-reverse_aux : (s t : Text) → All IsDigit s → All IsDigit t → All IsDigit (reverse_aux s t)
All-reverse_aux [] t h k = k
All-reverse_aux (c ∷ s) t (hc, h) k = All-reverse_aux s (c ∷ t) h (hc, k)

pub trim_space-newline :
    (s : Text) → 0 < length s → All IsDigit s → trim_space (s ++ b'\n' ∷ []) ≡ s
unfolding trim_space
trim_space-newline s pos h = rw (
  trim_left-IsDigit s (b'\n' ∷ []) pos h,
  reverse-append s (b'\n' ∷ []),
  newline_off (reverse s),
  trim_right-IsDigit (reverse s) (All-reverse_aux s [] h tt),
  reverse-reverse s,
)

pub trim_space-All : (s : Text) → 0 < length s → All IsDigit s → trim_space s ≡ s
unfolding trim_space
trim_space-All s pos h =
    let left : trim_run space_size 0 s ≡ s = rw append-nil at (trim_left-IsDigit s [] pos h) in
    rw (left, trim_right-IsDigit (reverse s) (All-reverse_aux s [] h tt), reverse-reverse s)
