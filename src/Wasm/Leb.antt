-- ===== src/Wasm/Leb.antt =====
-- readU32Leb128 and readI32Leb128: numbers in groups of seven bits, the lowest first.
pub mod Groups
pub mod RoundTrip
use stellar_xdr_lens.Prelude.{
  ◌+◌, ◌-◌, ◌*◌, ◌/◌, ◌%◌, ◌^◌, ◌≡◌, ◌&&◌, ◌∷◌, if◌then◌else◌, ◌==◌, zero, suc, [], refl, ℕ, ltb,
  negsuc, ℤ, pos, leb,
}
use stellar_xdr_lens.Errors.{ok, stuck, leb_overflow}
use stellar_xdr_lens.Wasm.Reader.{Reader, ◌>>=◌, done, read_byte, ◌>>◌, fail}

abbrev pub word : ℕ
word = 2 ^ 32

-- `result | uint32(b&0x7F)<<shift`. The bits of `result` are all below `shift`, so that the two have no
-- bit in common and `|` adds them.
unfoldable pub or_group : ℕ → ℕ → ℕ → ℕ
or_group result b shift = (result + b % 128 * 2 ^ shift) % word

-- The loop of readU32Leb128. It ends at the fifth byte at the latest.
unfoldable pub u32_rounds : ℕ → ℕ → ℕ → Reader ℕ
unfolding or_group read_byte
u32_rounds zero result shift = λ r. stuck
u32_rounds (suc n) result shift = do
  b ← read_byte
  let result' = or_group result b shift
  let more = u32_rounds n result' (shift + 7)
  (if ltb b 128
      then done result'
      else if leb 35 (shift + 7)
      then fail (leb_overflow ∷ [])
      else more)

unfoldable pub read_u32_leb128 : Reader ℕ
unfolding u32_rounds
read_u32_leb128 = u32_rounds 5 0 0

-- `result |= -(1 << shift)` where `result` is below 2^shift, as a word of 32 bits.
unfoldable pub extend_sign : ℕ → ℕ → ℕ → ℕ
extend_sign result b shift =
    if ltb shift 32 && (b / 64 % 2 == 1) then result + (word - 2 ^ shift) else result

-- The loop of readI32Leb128, on the bit pattern of the int32.
unfoldable pub i32_rounds : ℕ → ℕ → ℕ → Reader ℕ
unfolding or_group extend_sign read_byte
i32_rounds zero result shift = λ r. stuck
i32_rounds (suc n) result shift = do
  b ← read_byte
  let result' = or_group result b shift
  let more = i32_rounds n result' (shift + 7)
  (if ltb b 128
      then done (extend_sign result' b (shift + 7))
      else if leb 35 (shift + 7)
      then fail (leb_overflow ∷ [])
      else more)

unfoldable pub signed32 : ℕ → ℤ
signed32 w = if ltb w (2 ^ 31) then pos w else negsuc (word - w - 1)

unfoldable pub read_i32_leb128 : Reader ℤ
unfolding i32_rounds signed32
read_i32_leb128 = do w ← i32_rounds 5 0 0; done (signed32 w)

minus_two : read_i32_leb128 (0x7e ∷ 9 ∷ []) ≡ ok (negsuc 1, 9 ∷ [])
unfolding read_i32_leb128
minus_two = refl

two_groups : read_u32_leb128 (0xe5 ∷ 0x8e ∷ 0x26 ∷ []) ≡ ok (624485, [])
unfolding read_u32_leb128
two_groups = refl
