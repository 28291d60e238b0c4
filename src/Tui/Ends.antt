-- ===== src/Tui/Ends.antt =====
-- Run ends on every input, which it reads key by key.
use stellar_xdr_lens.Prelude.{
  ◌∷◌, [], ◌+◌, ◌≤◌, ◌<◌, ◌||◌, ◌==◌, zero, suc, none, some, ℕ, Option, Text, if-holds, length,
  List, arith, ◌≡◌, true, false, refl, if-cases,
}
use stellar_xdr_lens.Tree.Value.{GoLib}
use stellar_xdr_lens.Tui.Keys.{
  KeyReader, after_escape, ansi_code, escape, key_of_byte, next_byte, next_piece, read_byte,
  read_key, bytes_left, key_read, run, run_loop, shown, handle_key,
}
use stellar_xdr_lens.Tui.Render.{Palette, render}
use stellar_xdr_lens.Errors.{Result, ok}
use stellar_xdr_lens.Tui.State.{TuiTree}
use mathlib.Core.Path.{subst}
use stellar_xdr_lens.Tui.ReadKeys.{read_key-of_Pressed, PressedIf, read_key-PressedIf}
use stellar_xdr_lens.Tui.Typed.{Pressed}

abbrev unread : KeyReader → ℕ
unread r = length r.buffered + bytes_left r.pieces

-- What was read took a byte at least.
data Took {A : Type 0} (n : ℕ) : Option (A × KeyReader) → Type 0 where
  at_end : Took n none
  took : {a : A} {r : KeyReader} → unread r < n → Took n (some (a, r))

Took-more : {A : Type 0} {n k : ℕ} {out : Option (A × KeyReader)} → Took n out → n ≤ k → Took k out
Took-more at_end h = at_end
Took-more (took lt) h = took (omega (arith, lt, h))

next_piece-Took : (ps : List Text) → Took (bytes_left ps) (next_piece ps)
unfolding next_piece bytes_left
next_piece-Took [] = at_end
next_piece-Took ([] ∷ ps) = Took-more (next_piece-Took ps) (omega arith)
next_piece-Took ((b ∷ bs) ∷ ps) = took (omega arith)

next_byte-Took : (bs : Text) (ps : List Text) → Took (length bs + bytes_left ps) (next_byte bs ps)
unfolding next_byte
next_byte-Took [] ps = Took-more (next_piece-Took ps) (omega arith)
next_byte-Took (b ∷ bs) ps = took (omega arith)

read_byte-Took : (r : KeyReader) → Took (unread r) (read_byte r)
unfolding read_byte
read_byte-Took r = next_byte-Took r.buffered r.pieces

ansi_code-Took : {n : ℕ} {out : Option (ℕ × KeyReader)} → Took n out → Took n (ansi_code out)
unfolding ansi_code
ansi_code-Took at_end = at_end
ansi_code-Took (took lt) = took lt

after_escape-Took : {n : ℕ} {out : Option (ℕ × KeyReader)} → Took n out → Took n (after_escape out)
unfolding after_escape
after_escape-Took at_end = at_end
after_escape-Took {n = n} (took {a = next} {r = r} lt) =
    if-holds {A = Option (Text × KeyReader)} (Took n) (next == b'[')
      (Took-more (ansi_code-Took (read_byte-Took r)) (omega (arith, lt))) (took lt)

escape-Took : (n : ℕ) (r : KeyReader) → unread r < n → Took n (escape r)
unfolding escape
escape-Took n r lt =
    if-holds {A = Option (Text × KeyReader)} (Took n) (length r.buffered == 0) (took lt)
      (Took-more (after_escape-Took (read_byte-Took r)) (omega (arith, lt)))

key_of_byte-Took : {n : ℕ} {out : Option (ℕ × KeyReader)} → Took n out → Took n (key_of_byte out)
unfolding key_of_byte
key_of_byte-Took at_end = at_end
key_of_byte-Took {n = n} (took {a = b} {r = r} lt) =
    if-holds {A = Option (Text × KeyReader)} (Took n) ((b == b'\r') || (b == b'\n')) (took lt) (
      if-holds {A = Option (Text × KeyReader)} (Took n) (b == b' ') (took lt) (
        if-holds {A = Option (Text × KeyReader)} (Took n) (b == b'\t') (took lt) (
          if-holds {A = Option (Text × KeyReader)} (Took n) (b == 3) (took lt) (
            if-holds {A = Option (Text × KeyReader)} (Took n) (b == 27) (escape-Took n r lt)
              (took lt)))))

read_key-Took : (r : KeyReader) → Took (unread r) (read_key r)
unfolding read_key
read_key-Took r = key_of_byte-Took (read_byte-Took r)

module _ (fl : GoLib) (to_lower : Text → Text) (p : Palette) where
  -- A session at the terminal, from a state to the one in which Run comes back, with the screens: as long
  -- as no key has quit the explorer there is a screen and then the next key of the terminal is handled,
  -- and if there is no key the session is over.
  pub data Session : KeyReader → TuiTree fl.F → TuiTree fl.F → List Text → Type 0 where
    left : {r : KeyReader} {t : TuiTree fl.F} → t.quit ≡ true → Session r t t []
    input_ended :
        {r : KeyReader} {t : TuiTree fl.F}
        → t.quit ≡ false
        → ((key : Text) (r' : KeyReader) → ¬ Pressed r key r')
        → Session r t t (render fl p t ∷ [])
    key_pressed :
        {r r' : KeyReader} {t u : TuiTree fl.F} {key : Text} {screens : List Text}
        → t.quit ≡ false
        → Pressed r key r'
        → Session r' (handle_key fl to_lower key t) u screens
        → Session r t u (render fl p t ∷ screens)

  -- The outcome of Run is that of a session.
  pub data Ended (r : KeyReader) (t : TuiTree fl.F)
      : Result (TuiTree fl.F × List Text) → Type 0 where
    ended :
        {u : TuiTree fl.F} {screens : List Text}
        → Session r t u screens
        → Ended r t (ok (u, screens))

  shown-Ended :
      (r r' : KeyReader) (t : TuiTree fl.F) (key : Text) {out : Result (TuiTree fl.F × List Text)}
      → t.quit ≡ false
      → Pressed r key r'
      → Ended r' (handle_key fl to_lower key t) out
      → Ended r t (shown fl to_lower p (render fl p t) out)
  unfolding shown
  shown-Ended r r' t key e k (ended s) = ended (key_pressed e k s)

  key_read-Ended :
      (go_on : KeyReader → TuiTree fl.F → Result (TuiTree fl.F × List Text)) (r : KeyReader)
      (t : TuiTree fl.F) (out : Option (Text × KeyReader))
      → t.quit ≡ false
      → read_key r ≡ out
      → Took (unread r) out
      → ((r' : KeyReader) (u : TuiTree fl.F) → unread r' < unread r → Ended r' u (go_on r' u))
      → Ended r t (shown fl to_lower p (render fl p t) (key_read fl to_lower p go_on t out))
  unfolding shown key_read
  key_read-Ended go_on r t none e k took_one next =
      ended (input_ended e (λ key r' pressed. cc (read_key-of_Pressed pressed, k)))
  key_read-Ended go_on r t (some (key, r')) e k (took lt) next =
      let pressed : Pressed r key r' = subst (λ o. PressedIf r o) k (read_key-PressedIf r) in
      shown-Ended r r' t key e pressed (next r' (handle_key fl to_lower key t) lt)

  run_loop-Ended :
      (fuel : ℕ) (r : KeyReader) (t : TuiTree fl.F)
      → unread r + 1 < fuel
      → Ended r t (run_loop fl to_lower p fuel r t)
  unfolding run_loop
  run_loop-Ended zero r t lt = absurd (omega (arith, lt))
  run_loop-Ended (suc fuel) r t lt =
      if-cases {A = Result (TuiTree fl.F × List Text)} (Ended r t) t.quit (λ e. ended (left e))
        (λ e.
          key_read-Ended (run_loop fl to_lower p fuel) r t (read_key r) e refl (read_key-Took r)
            (λ r' u less. run_loop-Ended fuel r' u (omega (arith, lt, less))))

  -- On every input Run ends without an error, as a session at the terminal ends: it shows a screen and
  -- handles the next key of the input, as the bytes of the terminal spell it, until a key has quit the
  -- explorer, and then it reads no more, or until the input has no further key.
  pub run-Ended :
      (pieces : List Text) (t : TuiTree fl.F)
      → Ended (record { buffered = []; pieces = pieces }) t (run fl to_lower p pieces t)
  unfolding run
  run-Ended pieces t =
      run_loop-Ended (2 + bytes_left pieces) (record { buffered = []; pieces = pieces }) t
        (omega arith)
