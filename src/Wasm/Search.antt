-- ===== src/Wasm/Search.antt =====
-- searchWasmInNode: the byte slices of a tree that start with the magic bytes.
use stellar_xdr_lens.Prelude.{◌&&◌, ◌∷◌, if◌then◌else◌, [], Text, text_eq, Bool, leb, length, take}
use stellar_xdr_lens.Tree.Value.{Node, Val, bytes, node, Nodes, more, empty}
use stellar_xdr_lens.Wasm.Parse.{wasm_magic}

-- `b` starts with the magic bytes.
unfoldable pub is_wasm : Text → Bool
unfolding text_eq
is_wasm b = leb 4 (length b) && text_eq (take 4 b) wasm_magic

unfoldable pub first_bytes : Text → Text → Text
first_bytes [] later = later
first_bytes (b ∷ bs) later = b ∷ bs

module _ {F : Type 0} where
  unfoldable pub own_wasm : Val F → Text
  unfolding is_wasm
  own_wasm (bytes b) = if is_wasm b then b else []
  own_wasm _ = []

  -- searchWasmInNode: nothing found is the empty slice.
  unfoldable mutual
    unfolding own_wasm first_bytes

    pub search_wasm_in_node : Node F → Text
    search_wasm_in_node (node m k t v n cs) = first_bytes (own_wasm v) (search_wasm_in_nodes cs)

    pub search_wasm_in_nodes : Nodes F → Text
    search_wasm_in_nodes empty = []
    search_wasm_in_nodes (more c cs) = first_bytes (search_wasm_in_node c) (search_wasm_in_nodes cs)
