-- ===== src/Tui/Typed.antt =====
-- The keys of a terminal, described apart from readKey.
-- `b` is the next byte, and `r'` what is behind it: a byte that is buffered, or the first of the pieces
-- that has one.
use stellar_xdr_lens.Prelude.{◌<◌, ◌≡◌, ◌≢◌, ◌∷◌, [], ℕ, Text, List, codes, length}
use stellar_xdr_lens.Tui.Keys.{KeyReader, byte_text}

pub data Came : KeyReader → ℕ → KeyReader → Type 0 where
  buffered_byte :
      {b : ℕ} {bs : Text} {ps : List Text}
      → Came (record { buffered = b ∷ bs; pieces = ps }) b (record { buffered = bs; pieces = ps })
  next_one :
      {s : Text} {ps : List Text} {b : ℕ} {r' : KeyReader}
      → Came (record { buffered = s; pieces = ps }) b r'
      → Came (record { buffered = []; pieces = s ∷ ps }) b r'

-- The keys of the sequences that start with Escape and an opening bracket.
pub data Arrow : ℕ → Text → Type 0 where
  up_arrow : Arrow b'A' (codes "up")
  down_arrow : Arrow b'B' (codes "down")
  right_arrow : Arrow b'C' (codes "right")
  left_arrow : Arrow b'D' (codes "left")
  home_key : Arrow b'H' (codes "home")
  end_key : Arrow b'F' (codes "end")
  no_arrow :
      {c : ℕ}
      → c ≢ b'A'
      → c ≢ b'B'
      → c ≢ b'C'
      → c ≢ b'D'
      → c ≢ b'H'
      → c ≢ b'F'
      → Arrow c (codes "esc")

-- `key` is the next key of the terminal, and `r'` what is behind it.
pub data Pressed : KeyReader → Text → KeyReader → Type 0 where
  carriage_return : {r r' : KeyReader} → Came r b'\r' r' → Pressed r (codes "enter") r'
  line_feed : {r r' : KeyReader} → Came r b'\n' r' → Pressed r (codes "enter") r'
  space_bar : {r r' : KeyReader} → Came r b' ' r' → Pressed r (codes "space") r'
  tabulator : {r r' : KeyReader} → Came r b'\t' r' → Pressed r (codes "tab") r'
  control_c : {r r' : KeyReader} → Came r 3 r' → Pressed r (codes "ctrl+c") r'
  lone_escape : {r r' : KeyReader} → Came r 27 r' → r'.buffered ≡ [] → Pressed r (codes "esc") r'
  escape_and :
      {r r1 r2 : KeyReader} {c : ℕ}
      → Came r 27 r1
      → 0 < length r1.buffered
      → Came r1 c r2
      → c ≢ b'['
      → Pressed r (codes "esc") r2
  sequence :
      {r r1 r2 r3 : KeyReader} {c : ℕ} {key : Text}
      → Came r 27 r1
      → 0 < length r1.buffered
      → Came r1 b'[' r2
      → Came r2 c r3
      → Arrow c key
      → Pressed r key r3
  character :
      {r r' : KeyReader} {b : ℕ}
      → Came r b r'
      → b ≢ b'\r'
      → b ≢ b'\n'
      → b ≢ b' '
      → b ≢ b'\t'
      → b ≢ 3
      → b ≢ 27
      → Pressed r (byte_text b) r'
