-- ===== src/Footprint/Laws.antt =====
-- DiffFootprintKeys against sets of identities.
use stellar_xdr_lens.Prelude.{
  ◌∷◌, [], ◌≡◌, ◌∙◌, ◌↔◌, ◌&&◌, ◌||◌, if◌then◌else◌, true, false, refl, Bool, Text, Option, List,
  one_of, text_eq, Bool-cases, inl, inr, sym, text_eq_iff,
}
use stellar_xdr_lens.Errors.{ok, err, stuck, Result}
use stellar_xdr_lens.Footprint.{
  then_result, diff_footprint_keys, keys_behind, FootprintKey, FootprintKeySetDiff, footprint_keys,
  ids, key_set_diff, key_sets_equal, label_of,
}
use stellar_xdr_lens.Encoding.Hex.{hex_encode}
use stellar_xdr_lens.Footprint.Sets.{key_sets_equal_iff}

-- Whether there is a value.
unfoldable pub gives : {A : Type 0} → Result A → Bool
gives (ok a) = true
gives _ = false

gives-then_result :
    {A B : Type 0} (out : Result A) (f : A → Result B)
    → gives out ≡ false
    → gives (then_result out f) ≡ false
unfolding gives then_result
gives-then_result (ok a) f h = cc h
gives-then_result (err e) f h = refl
gives-then_result stuck f h = refl

module _ {K : Type 0} (marshal : K → Result Text) (summary : K → Option Text) where
  unfoldable pub is_id : Text → Result Text → Bool
  is_id b (ok bytes) = text_eq b (hex_encode bytes)
  is_id b _ = false

  -- Whether one of the keys is encoded as the bytes with this hexadecimal text.
  unfoldable pub has_id : Text → List K → Bool
  unfolding is_id
  has_id b [] = false
  has_id b (k ∷ ks) = is_id b (marshal k) || has_id b ks

  unfoldable pub all_encoded : List K → Bool
  unfolding gives
  all_encoded [] = true
  all_encoded (k ∷ ks) = gives (marshal k) && all_encoded ks

  data Behind (seen : List Text) (ks : List K) : Result (List FootprintKey) → Type 0 where
    behind :
        {out : List FootprintKey}
        → all_encoded ks ≡ true
        → ((b : Text) → (one_of b seen || one_of b (ids out)) ≡ (one_of b seen || has_id b ks))
        → Behind seen ks (ok out)
    unencoded :
        {out : Result (List FootprintKey)}
        → all_encoded ks ≡ false
        → gives out ≡ false
        → Behind seen ks out

  or_swap : (p s x y : Bool) → ((p || s) || x) ≡ ((p || s) || y) → (s || (p || x)) ≡ (s || (p || y))
  or_swap true s x y h = refl
  or_swap false s x y h = h

  and_false : (x : Bool) → (x && false) ≡ false
  and_false true = refl
  and_false false = refl

  all_encoded-cons : (k : K) (ks : List K) → all_encoded ks ≡ false → all_encoded (k ∷ ks) ≡ false
  unfolding all_encoded
  all_encoded-cons k ks h = rw h (and_false (gives (marshal k)))

  all_encoded-ok :
      (k : K) (ks : List K) (bytes : Text)
      → marshal k ≡ ok bytes
      → all_encoded ks ≡ true
      → all_encoded (k ∷ ks) ≡ true
  unfolding all_encoded gives
  all_encoded-ok k ks bytes m h = rw (m, h) refl

  -- An identity that has been seen.
  skipped :
      (seen : List Text) (k : K) (ks : List K) (bytes : Text) {out : Result (List FootprintKey)}
      → marshal k ≡ ok bytes
      → one_of (hex_encode bytes) seen ≡ true
      → Behind seen ks out
      → Behind seen (k ∷ ks) out
  unfolding has_id is_id
  skipped seen k ks bytes m e (unencoded h n) = unencoded (all_encoded-cons k ks h) n
  skipped seen k ks bytes m e (behind a f) = behind (all_encoded-ok k ks bytes m a) (λ b.
      elim (Bool-cases (text_eq b (hex_encode bytes))) [
        | inl same ↦
            (let known : one_of b seen ≡ true = rw ((text_eq_iff b _).0 same) e in
              rw (m, same, known) refl)
        | inr other ↦ rw (m, other) (f b)
      ])

  taken :
      (seen : List Text) (k : K) (ks : List K) (bytes : Text) {out : Result (List FootprintKey)}
      → marshal k ≡ ok bytes
      → Behind (hex_encode bytes ∷ seen) ks out
      → Behind seen (k ∷ ks) (
          then_result out (λ rest. ok (
            record {
              key = hex_encode bytes;
              label = label_of marshal summary (summary k) (hex_encode bytes);
            }
            ∷ rest)))
  unfolding has_id is_id one_of then_result
  taken seen k ks bytes m (unencoded {out = out} h n) =
      unencoded (all_encoded-cons k ks h) (gives-then_result out _ n)
  taken seen k ks bytes m (behind {out = out} a f) = behind (all_encoded-ok k ks bytes m a) (λ b.
      rw m (
        or_swap (text_eq b (hex_encode bytes)) (one_of b seen) (one_of b (ids out)) (has_id b ks)
          (f b)))

  Behind-cons :
      (seen : List Text) (k : K) (ks : List K) (out : Result Text)
      → marshal k ≡ out
      → ((seen' : List Text) → Behind seen' ks (keys_behind marshal summary seen' ks))
      → Behind seen (k ∷ ks) (
          then_result out (λ b.
            if one_of (hex_encode b) seen
            then keys_behind marshal summary seen ks
            else then_result (keys_behind marshal summary (hex_encode b ∷ seen) ks) (λ rest. ok (
                record {
                  key = hex_encode b;
                  label = label_of marshal summary (summary k) (hex_encode b);
                }
                ∷ rest))))
  unfolding then_result all_encoded gives
  Behind-cons seen k ks (ok bytes) m later = elim (Bool-cases (one_of (hex_encode bytes) seen)) [
    | inl e ↦ rw e (skipped seen k ks bytes m e (later seen))
    | inr e ↦ rw e (taken seen k ks bytes m (later (hex_encode bytes ∷ seen)))
  ]
  Behind-cons seen k ks (err e) m later = unencoded (rw m refl) refl
  Behind-cons seen k ks stuck m later = unencoded (rw m refl) refl

  keys_behind-Behind :
      (seen : List Text) (ks : List K) → Behind seen ks (keys_behind marshal summary seen ks)
  unfolding keys_behind has_id one_of all_encoded
  keys_behind-Behind seen [] = behind refl (λ b. refl)
  keys_behind-Behind seen (k ∷ ks) =
      Behind-cons seen k ks (marshal k) refl (λ seen'. keys_behind-Behind seen' ks)

  -- What DiffFootprintKeys comes to: a difference that is empty exactly if both sides have the same
  -- identities, or no difference, where a key cannot be encoded.
  pub data SetDiff (left right : List K) : Result FootprintKeySetDiff → Type 0 where
    set_diff :
        {d : FootprintKeySetDiff}
        → (all_encoded left && all_encoded right) ≡ true
        → (key_sets_equal d ≡ true) ↔ ((b : Text) → has_id b left ≡ has_id b right)
        → SetDiff left right (ok d)
    not_encoded :
        {out : Result FootprintKeySetDiff}
        → (all_encoded left && all_encoded right) ≡ false
        → gives out ≡ false
        → SetDiff left right out

  SetDiff-Behind :
      (left right : List K) {l r : Result (List FootprintKey)}
      → Behind [] left l
      → Behind [] right r
      → SetDiff left right (then_result l (λ x. then_result r (λ y. ok (key_set_diff x y))))
  unfolding then_result one_of
  SetDiff-Behind left right (unencoded {out = l} h n) k =
      not_encoded (rw h refl) (gives-then_result l _ n)
  SetDiff-Behind left right (behind a f) (unencoded {out = r} h n) =
      not_encoded (rw h (and_false (all_encoded left))) (gives-then_result r _ n)
  SetDiff-Behind left right (behind {out = x} a f) (behind {out = y} b' g) =
      let (p, q) = key_sets_equal_iff x y in
      set_diff (rw (a, b') refl)
        ((λ e b. sym (f b) ∙ (p e b ∙ g b)), (λ h. q (λ b. f b ∙ (h b ∙ sym (g b)))))

  -- DiffFootprintKeys finds two footprints equal exactly if the same encodings occur on both sides, whatever
  -- their order and number, and gives no difference exactly if a key cannot be encoded.
  pub diff_footprint_keys-SetDiff :
      (left right : List K) → SetDiff left right (diff_footprint_keys marshal summary left right)
  unfolding diff_footprint_keys footprint_keys
  diff_footprint_keys-SetDiff left right =
      SetDiff-Behind left right (keys_behind-Behind [] left) (keys_behind-Behind [] right)
