-- ===== src/Prelude/Int.antt =====
-- Signed integers over the native numbers, under the library's names.
use Prim.Native.Nat.{ℕ, suc}
use mathlib.Core.List.{◌∷◌}
use stellar_xdr_lens.Prelude.Strings.{Text, itoa}

-- `negsuc n` is -(n + 1).
pub data ℤ : Type 0 where
  pos : ℕ → ℤ
  negsuc : ℕ → ℤ

-- strconv.FormatInt in base ten.
unfoldable pub show_int : ℤ → Text
unfolding itoa
show_int (pos n) = itoa n
show_int (negsuc n) = b'-' ∷ itoa (suc n)
