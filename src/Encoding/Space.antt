-- ===== src/Encoding/Space.antt =====
-- strings.TrimSpace: the white space of Unicode, in UTF-8, off both ends.
pub mod Laws
pub mod Digits
use mathlib.Core.List.{reverse}
use stellar_xdr_lens.Prelude.{
  ℕ, zero, suc, ◌≡◌, refl, Bool, ◌&&◌, ◌||◌, [], ◌∷◌, Text, codes, leb, ◌==◌, if◌then◌else◌,
}

unfoldable pub is_ascii_space : ℕ → Bool
is_ascii_space c = (leb 9 c && leb c 13) || (c == 32)

-- The last byte of a white space of three bytes that begin 0xE2 0x80.
unfoldable pub is_general_space : ℕ → Bool
is_general_space e = (leb 0x80 e && leb e 0x8a) || (e == 0xa8) || (e == 0xa9) || (e == 0xaf)

unfoldable pub is_wide_space : ℕ → ℕ → ℕ → Bool
unfolding is_general_space
is_wide_space c d e =
    ((c == 0xe1) && (d == 0x9a) && (e == 0x80))
    || ((c == 0xe2) && (d == 0x80) && is_general_space e)
    || ((c == 0xe2) && (d == 0x81) && (e == 0x9f))
    || ((c == 0xe3) && (d == 0x80) && (e == 0x80))

unfoldable pub is_latin_space : ℕ → ℕ → Bool
is_latin_space c d = (c == 0xc2) && ((d == 0x85) || (d == 0xa0))

-- How many bytes of white space stand first, 0 if none does.
unfoldable pub space_size : Text → ℕ
unfolding is_ascii_space is_wide_space is_latin_space
space_size [] = 0
space_size (c ∷ []) = if is_ascii_space c then 1 else 0
space_size (c ∷ d ∷ []) = if is_ascii_space c then 1 else if is_latin_space c d then 2 else 0
space_size (c ∷ d ∷ e ∷ s) =
    if is_ascii_space c
    then 1
    else if is_latin_space c d
    then 2
    else if is_wide_space c d e
    then 3
    else 0

-- The same for a text that is read backwards.
unfoldable pub space_size_back : Text → ℕ
unfolding is_ascii_space is_wide_space is_latin_space
space_size_back [] = 0
space_size_back (c ∷ []) = if is_ascii_space c then 1 else 0
space_size_back (d ∷ c ∷ []) = if is_ascii_space d then 1 else if is_latin_space c d then 2 else 0
space_size_back (e ∷ d ∷ c ∷ s) =
    if is_ascii_space e
    then 1
    else if is_latin_space d e
    then 2
    else if is_wide_space c d e
    then 3
    else 0

module _ (size : Text → ℕ) where
  -- Drops `k` bytes, then white space as long as some stands first.
  unfoldable pub trim_run : ℕ → Text → Text
  trim_run k [] = []
  trim_run (suc k) (c ∷ s) = trim_run k s
  trim_run zero (c ∷ s) = elim (size (c ∷ s)) [ zero ↦ c ∷ s | suc k ↦ trim_run k s ]

-- strings.TrimSpace.
unfoldable pub trim_space : Text → Text
unfolding trim_run space_size space_size_back
trim_space s = reverse (trim_run space_size_back 0 (reverse (trim_run space_size 0 s)))

trim_runs :
    trim_space (32 ∷ 0xc2 ∷ 0xa0 ∷ b'a' ∷ 32 ∷ b'b' ∷ 0xe3 ∷ 0x80 ∷ 0x80 ∷ 10 ∷ []) ≡ codes "a b"
unfolding trim_space
trim_runs = refl
