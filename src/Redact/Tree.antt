-- ===== src/Redact/Tree.antt =====
-- redactNode, appendPath, mergedPaths and RedactValue.
use stellar_xdr_lens.Prelude.{
  ◌||◌, ◌∷◌, ◌++◌, if◌then◌else◌, [], false, none, some, List, Option, Text, text_eq, Bool, not,
}
use stellar_xdr_lens.Tree.Value.{Node, Nodes, node, scalar, more, str, empty}
use stellar_xdr_lens.Redact.Policy.{RedactionPolicy, enabled, placeholder_for}
use stellar_xdr_lens.Diff.Change.{join}

unfoldable pub has_path : List Text → Text → Bool
unfolding text_eq
has_path [] p = false
has_path (existing ∷ paths) p = text_eq existing p || has_path paths p

unfoldable pub append_path : List Text → Text → List Text
unfolding has_path
append_path paths p = if has_path paths p then paths else paths ++ p ∷ []

unfoldable pub append_paths : List Text → List Text → List Text
unfolding append_path
append_paths merged [] = merged
append_paths merged (p ∷ paths) = append_paths (append_path merged p) paths

unfoldable pub merged_paths : List Text → List Text → List Text
unfolding append_paths
merged_paths left right = append_paths (append_paths [] left) right

module _ {F : Type 0} where
  -- The copy of a node: its placeholder, or the copies of its children; and the paths behind it.
  unfoldable pub redacted_copy :
      Option Text → Node F → Text → List Text → Nodes F × List Text → Node F × List Text
  unfolding append_path
  redacted_copy (some placeholder) (node m k t v n cs) current paths copies =
      (node m scalar t (str placeholder) [] empty, append_path paths current)
  redacted_copy none (node m k t v n cs) current paths copies = (node m k t v n copies.0, copies.1)

module _ (glob : Text → Text → Option Bool) {F : Type 0} (p : RedactionPolicy) where
  -- redactNode, with the list of paths passed through.
  unfoldable mutual
    unfolding redacted_copy placeholder_for join

    pub redact_node : Text → Node F → List Text → Node F × List Text
    redact_node prefix (node m k t v n cs) paths =
        redacted_copy (placeholder_for glob p m t k) (node m k t v n cs) (join prefix m) paths
          (redact_nodes (join prefix m) cs paths)

    pub redact_nodes : Text → Nodes F → List Text → Nodes F × List Text
    redact_nodes prefix empty paths = (empty, paths)
    redact_nodes prefix (more c cs) paths =
        let first = redact_node prefix c paths in
        let rest = redact_nodes prefix cs first.1 in (more first.0 rest.0, rest.1)

  -- RedactValue on the node of the value.
  unfoldable pub redact_value : Node F → Node F × List Text
  unfolding enabled redact_node
  redact_value n = if not (enabled p) then (n, []) else redact_node [] n []
