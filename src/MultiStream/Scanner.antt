-- ===== src/MultiStream/Scanner.antt =====
-- bufio.Scanner with ScanLines, whose input is the list of the bytes still to come.
use stellar_xdr_lens.Prelude.{
  ◌+◌, ◌<◌, ◌≡◌, ◌∷◌, if◌then◌else◌, ◌==◌, [], none, some, refl, Text, ℕ, Option, length, ltb,
  if-holds, take, arith, drop, length-drop,
}
use stellar_xdr_lens.Tree.Path.{index_byte}

pub data Scanned : Type 0 where
  line : Text → Text → Scanned
  too_long at_end : Scanned

-- A carriage return in front of the newline is dropped.
unfoldable pub drop_cr : Text → Text
drop_cr [] = []
drop_cr (c ∷ []) = if c == b'\r' then [] else c ∷ []
drop_cr (c ∷ d ∷ s) = c ∷ drop_cr (d ∷ s)

-- The last line may do without a newline; the buffer must have room behind it.
unfoldable pub last_line : ℕ → Text → Scanned
unfolding drop_cr
last_line limit [] = at_end
last_line limit (c ∷ s) = if ltb (length (c ∷ s)) limit then line (drop_cr (c ∷ s)) [] else too_long

unfoldable pub line_up_to : ℕ → Text → Option ℕ → Scanned
unfolding drop_cr last_line
line_up_to limit s none = last_line limit s
line_up_to limit s (some i) =
    if ltb i limit then line (drop_cr (take i s)) (drop (i + 1) s) else too_long

-- Scan with a buffer of `limit` bytes: the next line and what is behind it.
unfoldable pub scan : ℕ → Text → Scanned
unfolding line_up_to index_byte
scan limit s = line_up_to limit s (index_byte b'\n' s)

-- A line takes a byte at least.
pub data Shorter (s : Text) : Scanned → Type 0 where
  shorter_line : {t rest : Text} → length rest < length s → Shorter s (line t rest)
  no_room : Shorter s too_long
  no_line : Shorter s at_end

no_newline : {i : ℕ} → index_byte b'\n' [] ≡ some i → ⊥
unfolding index_byte
no_newline e = cc e

line_up_to-Shorter :
    (limit : ℕ) (s : Text) (i : Option ℕ)
    → index_byte b'\n' s ≡ i
    → Shorter s (line_up_to limit s i)
unfolding line_up_to last_line
line_up_to-Shorter limit [] none e = no_line
line_up_to-Shorter limit (c ∷ s) none e =
    if-holds {A = Scanned} (λ out. Shorter (c ∷ s) out) (ltb (length (c ∷ s)) limit)
      (shorter_line {rest = []} (omega arith)) no_room
line_up_to-Shorter limit [] (some i) e = absurd (no_newline e)
line_up_to-Shorter limit (c ∷ s) (some i) e =
    if-holds {A = Scanned} (λ out. Shorter (c ∷ s) out) (ltb i limit)
      (shorter_line {rest = drop (i + 1) (c ∷ s)} (omega (arith, length-drop (i + 1) (c ∷ s))))
      no_room

pub scan-Shorter : (limit : ℕ) (s : Text) → Shorter s (scan limit s)
unfolding scan
scan-Shorter limit s = line_up_to-Shorter limit s (index_byte b'\n' s) refl
