-- ===== src/Tui/Keys.antt =====
-- readKey, HandleKey and Run. The terminal gives bytes in pieces: what one read of the bufio.Reader has
-- brought is buffered, and a key that starts with Escape is told apart by what is buffered behind it.
use stellar_xdr_lens.Prelude.{
  ◌∷◌, [], ◌+◌, ◌/◌, ◌%◌, ◌||◌, if◌then◌else◌, ◌==◌, zero, suc, true, none, some, List, Option,
  Text, ℕ, codes, length, ltb, one_of,
}
use stellar_xdr_lens.Tree.Value.{GoLib}
use stellar_xdr_lens.Tui.Render.{Palette, render}
use stellar_xdr_lens.Tui.State.{
  TuiTree, move_up, set_filter, move_down, toggle_selected, collapse_selected, expand_all,
  collapse_all, move_top, move_bottom,
}
use stellar_xdr_lens.Errors.{Result, ok, stuck, err}

pub record KeyReader : Type 0 where
  pub buffered : Text
  pub pieces : List Text

-- ReadByte; a piece without bytes is read over. `none` is io.EOF.
unfoldable pub next_piece : List Text → Option (ℕ × KeyReader)
next_piece [] = none
next_piece ([] ∷ ps) = next_piece ps
next_piece ((b ∷ bs) ∷ ps) = some (b, record { buffered = bs; pieces = ps })

unfoldable pub next_byte : Text → List Text → Option (ℕ × KeyReader)
unfolding next_piece
next_byte [] ps = next_piece ps
next_byte (b ∷ bs) ps = some (b, record { buffered = bs; pieces = ps })

unfoldable pub read_byte : KeyReader → Option (ℕ × KeyReader)
unfolding next_byte
read_byte r = next_byte r.buffered r.pieces

-- `string(b)` of a byte is the character of this number.
unfoldable pub byte_text : ℕ → Text
byte_text b = if ltb b 128 then b ∷ [] else (192 + b / 64) ∷ (128 + b % 64) ∷ []

unfoldable pub ansi_key : ℕ → Text
ansi_key code =
    if code == b'A'
    then codes "up"
    else if code == b'B'
    then codes "down"
    else if code == b'C'
    then codes "right"
    else if code == b'D'
    then codes "left"
    else if code == b'H'
    then codes "home"
    else if code == b'F'
    then codes "end"
    else codes "esc"

unfoldable pub ansi_code : Option (ℕ × KeyReader) → Option (Text × KeyReader)
unfolding ansi_key
ansi_code none = none
ansi_code (some (code, r)) = some (ansi_key code, r)

unfoldable pub after_escape : Option (ℕ × KeyReader) → Option (Text × KeyReader)
unfolding ansi_code read_byte
after_escape none = none
after_escape (some (next, r)) =
    let sequence = ansi_code (read_byte r) in
    if next == b'[' then sequence else some (codes "esc", r)

unfoldable pub escape : KeyReader → Option (Text × KeyReader)
unfolding after_escape read_byte
escape r =
    let sequence = after_escape (read_byte r) in
    if length r.buffered == 0 then some (codes "esc", r) else sequence

unfoldable pub key_of_byte : Option (ℕ × KeyReader) → Option (Text × KeyReader)
unfolding byte_text escape
key_of_byte none = none
key_of_byte (some (b, r)) =
    let sequence = escape r in
    if (b == b'\r') || (b == b'\n')
    then some (codes "enter", r)
    else if b == b' '
    then some (codes "space", r)
    else if b == b'\t'
    then some (codes "tab", r)
    else if b == 3
    then some (codes "ctrl+c", r)
    else if b == 27
    then sequence
    else some (byte_text b, r)

-- `none` is the error io.EOF, the only one that a terminal of bytes gives.
unfoldable pub read_key : KeyReader → Option (Text × KeyReader)
unfolding key_of_byte read_byte
read_key r = key_of_byte (read_byte r)

unfoldable pub slash_filter : Text → Option Text
slash_filter [] = none
slash_filter (c ∷ s) = if c == b'/' then some s else none

module _ (fl : GoLib) (to_lower : Text → Text) where
  unfoldable pub filter_key : Option Text → TuiTree fl.F → TuiTree fl.F
  unfolding set_filter
  filter_key none t = t
  filter_key (some q) t = set_filter fl to_lower q t

  unfoldable pub clear_filter : TuiTree fl.F → TuiTree fl.F
  unfolding set_filter
  clear_filter t =
      let cleared = set_filter fl to_lower [] t in if length t.filter == 0 then t else cleared

  unfoldable pub press : Text → TuiTree fl.F → TuiTree fl.F
  unfolding one_of move_up move_down toggle_selected collapse_selected expand_all collapse_all
      move_top move_bottom clear_filter filter_key slash_filter
  press key t =
      if one_of key (codes "up" ∷ codes "k" ∷ [])
      then move_up t
      else if one_of key (codes "down" ∷ codes "j" ∷ [])
      then move_down t
      else if one_of key (codes "right" ∷ codes "l" ∷ codes "enter" ∷ codes "space" ∷ [])
      then toggle_selected fl to_lower t
      else if one_of key (codes "left" ∷ codes "h" ∷ [])
      then collapse_selected fl to_lower t
      else if one_of key (codes "e" ∷ [])
      then expand_all fl to_lower t
      else if one_of key (codes "c" ∷ [])
      then collapse_all fl to_lower t
      else if one_of key (codes "g" ∷ codes "home" ∷ [])
      then move_top t
      else if one_of key (codes "G" ∷ codes "end" ∷ [])
      then move_bottom t
      else if one_of key (codes "q" ∷ codes "ctrl+c" ∷ [])
      then record t { quit = true }
      else if one_of key (codes "esc" ∷ [])
      then clear_filter t
      else filter_key (slash_filter key) t

  unfoldable pub handle_key : Text → TuiTree fl.F → TuiTree fl.F
  unfolding press
  handle_key key t = press key (record t { status_msg = [] })

  unfoldable pub handle_keys : List Text → TuiTree fl.F → TuiTree fl.F
  unfolding handle_key
  handle_keys [] t = t
  handle_keys (k ∷ ks) t = handle_keys ks (handle_key k t)

unfoldable pub bytes_left : List Text → ℕ
bytes_left [] = 0
bytes_left (s ∷ ss) = length s + bytes_left ss

module _ (fl : GoLib) (to_lower : Text → Text) (p : Palette) where
  unfoldable pub key_read :
      (KeyReader → TuiTree fl.F → Result (TuiTree fl.F × List Text))
      → TuiTree fl.F
      → Option (Text × KeyReader)
      → Result (TuiTree fl.F × List Text)
  unfolding handle_key
  key_read go_on t none = ok (t, [])
  key_read go_on t (some (key, r)) = go_on r (handle_key fl to_lower key t)

  -- A screen in front of those that follow.
  unfoldable pub shown :
      Text → Result (TuiTree fl.F × List Text) → Result (TuiTree fl.F × List Text)
  shown screen (ok (t, screens)) = ok (t, screen ∷ screens)
  shown screen (err e) = err e
  shown screen stuck = stuck

  -- The loop of Run, with the screens that it prints. A key takes a byte.
  unfoldable pub run_loop : ℕ → KeyReader → TuiTree fl.F → Result (TuiTree fl.F × List Text)
  unfolding render read_key key_read shown
  run_loop zero r t = stuck
  run_loop (suc fuel) r t =
      let rest = shown (render fl p t) (key_read (run_loop fuel) t (read_key r)) in
      if t.quit then ok (t, []) else rest

  unfoldable pub run : List Text → TuiTree fl.F → Result (TuiTree fl.F × List Text)
  unfolding run_loop bytes_left
  run pieces t = run_loop (2 + bytes_left pieces) (record { buffered = []; pieces = pieces }) t
