-- ===== src/Tests/Inputs.antt =====
-- Hexadecimal inputs of hex_input.go and pointers of json_patch.go.
use stellar_xdr_lens.Errors.{ok}
use stellar_xdr_lens.Prelude.{◌≡◌, ◌↔◌, ◌∷◌, [], true, codes, Text, arith}
use stellar_xdr_lens.HexInput.{hex_to_bytes, is_hex_string, bytes_to_hex}
use stellar_xdr_lens.Patch.RoundTrip.{read_pointer, read_pointer-json_pointer}
use stellar_xdr_lens.Patch.Pointer.{json_pointer, pointer_segments}
use stellar_xdr_lens.Errors.{ok}
use stellar_xdr_lens.HexInput.Laws.{hex_to_bytes-bytes_to_hex, hex_to_bytes-is_hex_string}

read_pointer-json_pointer_example :
    read_pointer (json_pointer (codes "Ops[0].a/b~")) ≡ pointer_segments (codes "Ops[0].a/b~")
read_pointer-json_pointer_example = read_pointer-json_pointer (codes "Ops[0].a/b~")

hex_to_bytes-is_hex_string_example :
    (is_hex_string (codes "0xAb 0c") ≡ true)
    ↔ ((b : Text) × (hex_to_bytes (codes "0xAb 0c") ≡ ok b))
hex_to_bytes-is_hex_string_example = hex_to_bytes-is_hex_string (codes "0xAb 0c")

two_bytes_back : hex_to_bytes (bytes_to_hex (0xab ∷ 7 ∷ [])) ≡ ok (0xab ∷ 7 ∷ [])
two_bytes_back =
    hex_to_bytes-bytes_to_hex (0xab ∷ 7 ∷ []) (omega arith) (omega arith, (omega arith, tt))
