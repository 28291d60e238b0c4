-- ===== src/Wasm/Found.antt =====
-- searchWasmInNode against the byte slices that stand in a tree.
use stellar_xdr_lens.Prelude.{
  ◌<◌, ◌≡◌, ◌⊎◌, ◌∷◌, [], true, refl, Text, arith, length, Bool-cases, inl, inr, ◌↔◌, false,
  text_eq,
}
use stellar_xdr_lens.Tree.Value.{
  Node, Val, Kind, Nodes, bytes, node, more, empty, str, bool, int, uint, float, nil,
}
use stellar_xdr_lens.Wasm.Search.{
  first_bytes, own_wasm, search_wasm_in_node, is_wasm, search_wasm_in_nodes,
}

-- What a search comes to: a slice that satisfies P, or nothing where no slice does.
pub data Searched (P : Text → Type 0) : Text → Type 0 where
  found : {b : Text} → 0 < length b → P b → Searched P b
  not_found : ((b : Text) → ¬ P b) → Searched P []

first_bytes-Searched :
    {P Q R : Text → Type 0} {a c : Text}
    → ((b : Text) → P b → R b)
    → ((b : Text) → Q b → R b)
    → ((b : Text) → R b → P b ⊎ Q b)
    → Searched P a
    → Searched Q c
    → Searched R (first_bytes a c)
unfolding first_bytes
first_bytes-Searched p q r (found {b = []} h x) k = absurd (omega arith)
first_bytes-Searched p q r (found {b = y ∷ ys} h x) k = found h (p (y ∷ ys) x)
first_bytes-Searched p q r (not_found none_a) (found h x) = found h (q _ x)
first_bytes-Searched p q r (not_found none_a) (not_found none_c) =
    not_found (λ b x. elim (r b x) [ inl y ↦ none_a b y | inr y ↦ none_c b y ])

-- The bytes 0, a, s and m in front of others.
pub data HasMagic : Text → Type 0 where
  magic : (rest : Text) → HasMagic (0 ∷ b'a' ∷ b's' ∷ b'm' ∷ rest)

text_of_magic : {b : Text} → HasMagic b → is_wasm b ≡ true
unfolding is_wasm text_eq
text_of_magic (magic rest) = ground arith

magic_of_text : (b : Text) → is_wasm b ≡ true → HasMagic b
unfolding is_wasm text_eq
magic_of_text [] h = cc h
magic_of_text (c ∷ []) h = cc h
magic_of_text (c ∷ d ∷ []) h = cc h
magic_of_text (c ∷ d ∷ e ∷ []) h = cc h
magic_of_text (c ∷ d ∷ e ∷ f ∷ rest) h =
    let first : c ≡ 0 = ground (arith, h) in
    let second : d ≡ b'a' = ground (arith, h) in
    let third : e ≡ b's' = ground (arith, h) in
    let fourth : f ≡ b'm' = ground (arith, h) in rw (first, second, third, fourth) (magic rest)

is_wasm_iff : (b : Text) → (is_wasm b ≡ true) ↔ HasMagic b
is_wasm_iff b = (magic_of_text b, text_of_magic)

HasMagic-positive : {b : Text} → HasMagic b → 0 < length b
HasMagic-positive (magic rest) = omega arith

module _ {F : Type 0} where
  -- A byte slice that starts with the magic bytes is the value of a node of the tree.
  mutual
    pub data HoldsWasm (b : Text) : Node F → Type 0 where
      here :
          {m : Text} {k : Kind} {t : Text} {v : Val F} {n : Text} {cs : Nodes F}
          → v ≡ bytes b
          → HasMagic b
          → HoldsWasm b (node m k t v n cs)
      below :
          {m : Text} {k : Kind} {t : Text} {v : Val F} {n : Text} {cs : Nodes F}
          → AnyHoldsWasm b cs
          → HoldsWasm b (node m k t v n cs)

    pub data AnyHoldsWasm (b : Text) : Nodes F → Type 0 where
      in_first : {c : Node F} {cs : Nodes F} → HoldsWasm b c → AnyHoldsWasm b (more c cs)
      in_rest : {c : Node F} {cs : Nodes F} → AnyHoldsWasm b cs → AnyHoldsWasm b (more c cs)

  other_bytes :
      (b c : Text) → is_wasm b ≡ false → ◌≡◌ {A = Val F} (bytes b) (bytes c) → HasMagic c → ⊥
  other_bytes b c e same starts =
      let w : is_wasm c ≡ true = (is_wasm_iff c).1 starts in
      let here : b ≡ c = cc same in cc (here, e, w)

  abbrev Own : Val F → Text → Type 0
  Own v b = (v ≡ bytes b) × HasMagic b

  in_node :
      {m : Text} {k : Kind} {t : Text} {v : Val F} {n : Text} {cs : Nodes F} (b : Text)
      → HoldsWasm b (node m k t v n cs)
      → Own v b ⊎ AnyHoldsWasm b cs
  in_node b (here e w) = inl (e, w)
  in_node b (below h) = inr h

  in_nodes :
      {c : Node F} {cs : Nodes F} (b : Text)
      → AnyHoldsWasm b (more c cs)
      → HoldsWasm b c ⊎ AnyHoldsWasm b cs
  in_nodes b (in_first h) = inl h
  in_nodes b (in_rest h) = inr h

  own_wasm-Searched : (v : Val F) → Searched (Own v) (own_wasm v)
  unfolding own_wasm
  own_wasm-Searched (bytes b) = elim (Bool-cases (is_wasm b)) [
    | inl e ↦
        let starts = (is_wasm_iff b).0 e in rw e (found (HasMagic-positive starts) (refl, starts))
    | inr e ↦ rw e (not_found (λ c w. other_bytes b c e w.0 w.1))
  ]
  own_wasm-Searched nil = not_found (λ c w. cc w.0)
  own_wasm-Searched (str s) = not_found (λ c w. cc w.0)
  own_wasm-Searched (bool s) = not_found (λ c w. cc w.0)
  own_wasm-Searched (int s) = not_found (λ c w. cc w.0)
  own_wasm-Searched (uint s) = not_found (λ c w. cc w.0)
  own_wasm-Searched (float s) = not_found (λ c w. cc w.0)

  mutual
    unfolding search_wasm_in_node

    node-Searched : (n : Node F) → Searched (λ b. HoldsWasm b n) (search_wasm_in_node n)
    node-Searched (node m k t v n cs) =
        first_bytes-Searched (λ b w. here w.0 w.1) (λ b. below) in_node (own_wasm-Searched v)
          (nodes-Searched cs)

    nodes-Searched : (cs : Nodes F) → Searched (λ b. AnyHoldsWasm b cs) (search_wasm_in_nodes cs)
    nodes-Searched empty = not_found (λ b h. elim h [ ])
    nodes-Searched (more c cs) =
        first_bytes-Searched (λ b. in_first) (λ b. in_rest) in_nodes (node-Searched c)
          (nodes-Searched cs)

  -- The search finds a nonempty byte slice that is the value of a node of the tree and starts with the
  -- bytes 0, a, s and m, or nothing if the tree has none.
  pub search_wasm_in_node-Searched :
      (n : Node F) → Searched (λ b. HoldsWasm b n) (search_wasm_in_node n)
  search_wasm_in_node-Searched = node-Searched
