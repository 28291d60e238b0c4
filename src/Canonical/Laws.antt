-- ===== src/Canonical/Laws.antt =====
-- Validation against repair.
use stellar_xdr_lens.Prelude.{
  ◌∷◌, ◌++◌, [], ◌≤◌, ◌≡◌, ◌↔◌, ◌==◌, none, some, refl, Text, Option, length, ℕ, arith, replicate,
  Bool-cases, inl, inr, ◌-◌, ◌%◌, zero, suc, List, ap, drop, take, ==_iff, eq_true, if◌then◌else◌,
  true, false, Bool, eq_false, ltb,
}
use stellar_xdr_lens.Canonical.{
  check_padding, pad_start, same_bytes, zero_padding, clear_padding, same_encoding,
  validate_canonical_xdr, validate_detected, canonicalize_detected, canonicalize_xdr,
  check_canonical_encoding, canonical_encode,
}
use stellar_xdr_lens.Errors.{ok, Result, err, stuck, ok-injective, trailing_garbage, non_canonical}
use stellar_xdr_lens.Encoding.Base64.{std_encode}

zero_padding_iff : (bs : Text) → (zero_padding bs ≡ ok tt) ↔ (replicate (length bs) 0 ≡ bs)
unfolding zero_padding
zero_padding_iff [] = ((λ _. refl), (λ _. refl))
zero_padding_iff (b ∷ bs) = ground (arith, zero_padding_iff bs)

cons_iff : (x : ℕ) (xs ys : Text) → (xs ≡ ys) ↔ (x ∷ xs ≡ x ∷ ys)
cons_iff x xs ys = ((λ h. ap (λ l. x ∷ l) h), (λ h. cc h))

-- From a place on, zeros only.
zeros_from_iff :
    (i : ℕ) (s : Text)
    → i ≤ length s
    → (zero_padding (drop i s) ≡ ok tt) ↔ (take i s ++ replicate (length s - i) 0 ≡ s)
zeros_from_iff zero s h =
    let whole : length s - 0 ≡ length s = omega arith in rw whole (zero_padding_iff s)
zeros_from_iff (suc i) [] h = absurd (omega (arith, h))
zeros_from_iff (suc i) (x ∷ s) h =
    let rest : length (x ∷ s) - suc i ≡ length s - i = omega arith in
    let (p, q) = zeros_from_iff i s (omega (arith, h)) in
    let (f, g) = cons_iff x (take i s ++ replicate (length s - i) 0) s in
    rw rest ((λ k. f (p k)), (λ k. q (g k)))

same_bytes_iff : (xs ys : Text) → length xs ≡ length ys → (same_bytes xs ys ≡ ok tt) ↔ (ys ≡ xs)
unfolding same_bytes
same_bytes_iff [] [] h = ((λ _. refl), (λ _. refl))
same_bytes_iff [] (y ∷ ys) h = absurd (omega (arith, h))
same_bytes_iff (x ∷ xs) [] h = absurd (omega (arith, h))
same_bytes_iff (x ∷ xs) (y ∷ ys) h = ground (arith, same_bytes_iff xs ys (omega (arith, h)))

clear_padding_iff :
    (s : Text) (o : Option ℕ)
    → ((i : ℕ) → o ≡ some i → i ≤ length s)
    → (check_padding s o ≡ ok tt) ↔ (clear_padding s o ≡ s)
unfolding check_padding clear_padding
clear_padding_iff s none h = ((λ _. refl), (λ _. refl))
clear_padding_iff s (some i) h = zeros_from_iff i s (h i refl)

pad_start_le : (s : Text) (i : ℕ) → pad_start s ≡ some i → i ≤ length s
unfolding pad_start
pad_start_le s i e = ground (arith, e)

ok_iff : {P : Type 0} {s t : Text} → P ↔ (s ≡ t) → P ↔ (ok s ≡ ok t)
ok_iff {s = s} {t = t} (p, q) = ((λ h. ap ok (p h)), (λ h. q (ok-injective s t h)))

neither :
    (b : Bool)
    → (if b then err (trailing_garbage ∷ non_canonical ∷ []) else err (non_canonical ∷ []))
      ≡ (ok (tt {0}))
    → ⊥
neither true h = cc h
neither false h = cc h

unequal : (s b : Text) → (length s == length b) ≡ false → length b ≡ length s → ⊥
unequal s b e h = ground (arith, e, h)

module _ {V : Type 0} (detect : Text → Option (List (Option V))) (marshal : V → Result Text) where
  same_encoding_iff : (s : Text) (out : Result Text) → (same_encoding s out ≡ ok tt) ↔ (out ≡ ok s)
  unfolding same_encoding
  same_encoding_iff s (ok b) = elim (Bool-cases (length s == length b)) [
    | inl e ↦ rw e (ok_iff (same_bytes_iff s b ((==_iff _ _).0 e)))
    | inr e ↦ rw e (
      (λ h. absurd (neither (ltb (length b) (length s)) h)),
      (λ h. absurd (unequal s b e (ap length (ok-injective b s h)))),
    )
  ]
  same_encoding_iff s (err e) = ((λ h. cc h), (λ h. cc h))
  same_encoding_iff s stuck = ((λ h. cc h), (λ h. cc h))

  undetected_iff :
      (s : Text)
      → (check_padding s (pad_start s) ≡ ok tt) ↔ (ok (clear_padding s (pad_start s)) ≡ ok s)
  undetected_iff s = ok_iff (clear_padding_iff s (pad_start s) (pad_start_le s))

  detected_iff :
      (s : Text) (found : Option (List (Option V)))
      → length s % 4 ≡ 0
      → (validate_detected detect marshal s found ≡ ok tt)
        ↔ (canonicalize_detected detect marshal s found ≡ ok s)
  unfolding validate_detected canonicalize_detected check_canonical_encoding
  detected_iff s none h = undetected_iff s
  detected_iff s (some []) h = undetected_iff s
  detected_iff s (some (v ∷ vs)) h =
      rw (eq_true (length s % 4) 0 h) (same_encoding_iff s (canonical_encode detect marshal v))

  -- ValidateCanonicalXDR accepts exactly the bytes that CanonicalizeXDR returns unchanged, whether a type
  -- is detected or not.
  pub validate_canonical_xdr_iff :
      (s : Text)
      → (validate_canonical_xdr detect marshal s ≡ ok tt)
        ↔ (canonicalize_xdr detect marshal s ≡ ok s)
  unfolding validate_canonical_xdr canonicalize_xdr
  validate_canonical_xdr_iff [] = ((λ _. refl), (λ _. refl))
  validate_canonical_xdr_iff (x ∷ s) = elim (Bool-cases (length (x ∷ s) % 4 == 0)) [
    | inl e ↦
        rw (eq_false (length (x ∷ s)) 0 (omega arith), e)
          (detected_iff (x ∷ s) (detect (std_encode (x ∷ s))) ((==_iff _ 0).0 e))
    | inr e ↦ rw (eq_false (length (x ∷ s)) 0 (omega arith), e) ((λ h. cc h), (λ h. cc h))
  ]
