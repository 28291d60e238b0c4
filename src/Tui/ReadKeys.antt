-- ===== src/Tui/ReadKeys.antt =====
-- readKey reads the keys that were pressed, and no others.
use stellar_xdr_lens.Tui.Typed.{
  Came, buffered_byte, next_one, Arrow, up_arrow, down_arrow, right_arrow, left_arrow, home_key,
  end_key, no_arrow, Pressed, carriage_return, line_feed, space_bar, tabulator, control_c,
  lone_escape, escape_and, sequence, character,
}
use stellar_xdr_lens.Prelude.{
  ◌<◌, ◌≡◌, ◌∙◌, ◌≢◌, ◌||◌, ◌∷◌, ◌==◌, [], true, false, none, some, refl, Text, ℕ, List, Option,
  arith, length, codes, if-cases, Bool-cases, sym, inl, inr, or_false,
}
use stellar_xdr_lens.Tui.Keys.{
  KeyReader, after_escape, ansi_code, ansi_key, escape, key_of_byte, next_byte, next_piece,
  read_byte, read_key,
}
use mathlib.Core.Path.{subst}

next_piece-cons : (s : Text) (ps : List Text) → next_piece (s ∷ ps) ≡ next_byte s ps
unfolding next_piece next_byte
next_piece-cons [] ps = refl
next_piece-cons (b ∷ bs) ps = refl

read_byte-of_Came : {r r' : KeyReader} {b : ℕ} → Came r b r' → read_byte r ≡ some (b, r')
unfolding read_byte next_byte
read_byte-of_Came buffered_byte = refl
read_byte-of_Came (next_one {s = s} {ps = ps} c) = next_piece-cons s ps ∙ read_byte-of_Came c

abbrev CameIf : KeyReader → Option (ℕ × KeyReader) → Type 0
CameIf r none = Unit {0}
CameIf r (some (b, r')) = Came r b r'

CameIf-behind :
    (s : Text) (ps : List Text) (out : Option (ℕ × KeyReader))
    → CameIf (record { buffered = s; pieces = ps }) out
    → CameIf (record { buffered = []; pieces = s ∷ ps }) out
CameIf-behind s ps none c = tt
CameIf-behind s ps (some (b, r')) c = next_one c

next_byte-CameIf :
    (s : Text) (ps : List Text) → CameIf (record { buffered = s; pieces = ps }) (next_byte s ps)
unfolding next_byte
next_byte-CameIf (b ∷ bs) ps = buffered_byte
next_byte-CameIf [] [] = unfold next_piece in tt
next_byte-CameIf [] (s ∷ ps) =
    rw (next_piece-cons s ps) (CameIf-behind s ps (next_byte s ps) (next_byte-CameIf s ps))

read_byte-CameIf : (r : KeyReader) → CameIf r (read_byte r)
unfolding read_byte
read_byte-CameIf r = next_byte-CameIf r.buffered r.pieces

ansi_key-of_Arrow : {c : ℕ} {key : Text} → Arrow c key → ansi_key c ≡ key
unfolding ansi_key
ansi_key-of_Arrow up_arrow = refl
ansi_key-of_Arrow down_arrow = refl
ansi_key-of_Arrow right_arrow = refl
ansi_key-of_Arrow left_arrow = refl
ansi_key-of_Arrow home_key = refl
ansi_key-of_Arrow end_key = refl
ansi_key-of_Arrow (no_arrow a b c d e f) = ground (arith, a, b, c, d, e, f)

-- Every key that was pressed is read.
pub read_key-of_Pressed :
    {r r' : KeyReader} {key : Text} → Pressed r key r' → read_key r ≡ some (key, r')
unfolding read_key key_of_byte escape after_escape ansi_code
read_key-of_Pressed (carriage_return c) = rw (read_byte-of_Came c) refl
read_key-of_Pressed (line_feed c) = rw (read_byte-of_Came c) refl
read_key-of_Pressed (space_bar c) = rw (read_byte-of_Came c) refl
read_key-of_Pressed (tabulator c) = rw (read_byte-of_Came c) refl
read_key-of_Pressed (control_c c) = rw (read_byte-of_Came c) refl
read_key-of_Pressed (lone_escape c e) = rw (read_byte-of_Came c, e) refl
read_key-of_Pressed (escape_and {r1 = r1} {c = b} c more d n) =
    let some_left : (length r1.buffered == 0) ≡ false = ground arith in
    let other : (b == b'[') ≡ false = ground arith in
    rw (read_byte-of_Came c, some_left, read_byte-of_Came d, other) refl
read_key-of_Pressed (sequence {r1 = r1} c more d e a) =
    let some_left : (length r1.buffered == 0) ≡ false = ground arith in
    rw
      (
        read_byte-of_Came c,
        some_left,
        read_byte-of_Came d,
        read_byte-of_Came e,
        ansi_key-of_Arrow a,
      )
      refl
read_key-of_Pressed (character c n1 n2 n3 n4 n5 n6) = rw (read_byte-of_Came c) (ground arith)

same_of_eq : (m n : ℕ) → (m == n) ≡ true → m ≡ n
same_of_eq m n e = ground (arith, e)

not_same : (m n : ℕ) → (m == n) ≡ false → m ≢ n
not_same m n e same = ground (arith, e, same)

ansi_key-Arrow : (c : ℕ) → Arrow c (ansi_key c)
unfolding ansi_key
ansi_key-Arrow c =
    if-cases {A = Text} (Arrow c) (c == b'A') (λ e. is_code b'A' e up_arrow)
      (λ a.
        if-cases {A = Text} (Arrow c) (c == b'B') (λ e. is_code b'B' e down_arrow)
          (λ b.
            if-cases {A = Text} (Arrow c) (c == b'C') (λ e. is_code b'C' e right_arrow)
              (λ d.
                if-cases {A = Text} (Arrow c) (c == b'D') (λ e. is_code b'D' e left_arrow)
                  (λ f.
                    if-cases {A = Text} (Arrow c) (c == b'H') (λ e. is_code b'H' e home_key)
                      (λ h.
                        if-cases {A = Text} (Arrow c) (c == b'F') (λ e. is_code b'F' e end_key)
                          (λ k.
                            no_arrow (not_same c b'A' a) (not_same c b'B' b) (not_same c b'C' d)
                              (not_same c b'D' f) (not_same c b'H' h) (not_same c b'F' k)))))))
  where
    is_code : {key : Text} (code : ℕ) → (c == code) ≡ true → Arrow code key → Arrow c key
    is_code {key} code e a = subst (λ x. Arrow x key) (sym (same_of_eq c code e)) a

abbrev pub PressedIf : KeyReader → Option (Text × KeyReader) → Type 0
PressedIf r none = Unit {0}
PressedIf r (some (key, r')) = Pressed r key r'

nothing_of_length : (s : Text) → (length s == 0) ≡ true → s ≡ []
nothing_of_length [] e = refl
nothing_of_length (b ∷ bs) e = absurd (ground (arith, e))

ansi_code-PressedIf :
    {r r1 r2 : KeyReader} (out : Option (ℕ × KeyReader))
    → Came r 27 r1
    → 0 < length r1.buffered
    → Came r1 b'[' r2
    → CameIf r2 out
    → PressedIf r (ansi_code out)
unfolding ansi_code
ansi_code-PressedIf none c more d e = tt
ansi_code-PressedIf (some (code, r3)) c more d e = sequence c more d e (ansi_key-Arrow code)

after_escape-PressedIf :
    {r r1 : KeyReader} (out : Option (ℕ × KeyReader))
    → Came r 27 r1
    → 0 < length r1.buffered
    → CameIf r1 out
    → PressedIf r (after_escape out)
unfolding after_escape
after_escape-PressedIf none c more d = tt
after_escape-PressedIf {r} {r1} (some (b, r2)) c more d =
    if-cases {A = Option (Text × KeyReader)} (PressedIf r) (b == b'[')
      (λ e.
        ansi_code-PressedIf (read_byte r2) c more
          (subst (λ x. Came r1 x r2) (same_of_eq b b'[' e) d) (read_byte-CameIf r2))
      (λ e. escape_and c more d (not_same b b'[' e))

escape-PressedIf : (r r1 : KeyReader) → Came r 27 r1 → PressedIf r (escape r1)
unfolding escape
escape-PressedIf r r1 c =
    if-cases {A = Option (Text × KeyReader)} (PressedIf r) (length r1.buffered == 0)
      (λ e. lone_escape c (nothing_of_length r1.buffered e))
      (λ e. after_escape-PressedIf (read_byte r1) c (ground (arith, e)) (read_byte-CameIf r1))

enter_key :
    (r : KeyReader) (b : ℕ) (r1 : KeyReader)
    → Came r b r1
    → ((b == b'\r') || (b == b'\n')) ≡ true
    → Pressed r (codes "enter") r1
enter_key r b r1 c e = elim (Bool-cases (b == b'\r')) [
  | inl cr ↦ carriage_return (subst (λ x. Came r x r1) (same_of_eq b b'\r' cr) c)
  | inr other ↦
      let lf : (b == b'\n') ≡ true = rw other at e in
      line_feed (subst (λ x. Came r x r1) (same_of_eq b b'\n' lf) c)
]

key_of_byte-PressedIf :
    (r : KeyReader) (out : Option (ℕ × KeyReader)) → CameIf r out → PressedIf r (key_of_byte out)
unfolding key_of_byte
key_of_byte-PressedIf r none c = tt
key_of_byte-PressedIf r (some (b, r1)) c =
    if-cases {A = Option (Text × KeyReader)} (PressedIf r) ((b == b'\r') || (b == b'\n'))
      (λ e. enter_key r b r1 c e)
      (λ n.
        if-cases {A = Option (Text × KeyReader)} (PressedIf r) (b == b' ')
          (λ e. space_bar (came b' ' e))
          (λ n3.
            if-cases {A = Option (Text × KeyReader)} (PressedIf r) (b == b'\t')
              (λ e. tabulator (came b'\t' e))
              (λ n4.
                if-cases {A = Option (Text × KeyReader)} (PressedIf r) (b == 3)
                  (λ e. control_c (came 3 e))
                  (λ n5.
                    if-cases {A = Option (Text × KeyReader)} (PressedIf r) (b == 27)
                      (λ e. escape-PressedIf r r1 (came 27 e))
                      (λ n6.
                        character c (not_same b b'\r' (or_false (b == b'\r') (b == b'\n') n).0)
                          (not_same b b'\n' (or_false (b == b'\r') (b == b'\n') n).1)
                          (not_same b b' ' n3) (not_same b b'\t' n4) (not_same b 3 n5)
                          (not_same b 27 n6))))))
  where
    came : (n : ℕ) → (b == n) ≡ true → Came r n r1
    came n e = subst (λ x. Came r x r1) (same_of_eq b n e) c

-- Every key that is read was pressed.
pub read_key-PressedIf : (r : KeyReader) → PressedIf r (read_key r)
unfolding read_key
read_key-PressedIf r = key_of_byte-PressedIf r (read_byte r) (read_byte-CameIf r)
