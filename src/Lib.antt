-- ===== src/Lib.antt =====
-- Verification of stellar-xdr-lens: framed streams of XDR records, the structural diff of decoded values
-- with its redaction, filters, statistics, signer sets and line alignments, WebAssembly modules,
-- JSON pointers, hexadecimal inputs, streams of encoded lines, and the terminal explorer of trees.
--
-- Decoding turns XDR bytes into a neutral tree; the diff walks two trees and reports changes; filters
-- and statistics work on these changes; the line diff aligns the flattened trees. Redaction replaces
-- hashes and signatures in both trees before the walk. The stream parser stands before the decoder and
-- gives it one record at a time. The WASM parser takes apart the code that a contract entry holds.
--
-- The files and the code:
--   Errors     the sentinels of stream_parser.go and wasm_disasm.go, and the result type
--   Encoding   the parts of Go's library that the code calls: big-endian words, hex, base64, TrimSpace
--   Stream     pkg/lens/stream_parser.go. Parser is the state, its options and detectFraming; Read has
--              readRecordMarking, readLengthPrefixed and readBase64Line; Next has Next and Drain; Write
--              has the three writers. The other modules are proofs.
--   Tree       pkg/lens/node.go: Node, Child, Find, String and splitPath
--   Lcs        the table of longest common subsequences of diffAlignedLists and alignLines
--   LineDiff   pkg/lens/format/linediff.go: alignLines in Align, buildHunks in Hunks
--   Diff       pkg/lens/diff.go: Change has the changes and their summary, Scalar the comparison of
--              scalars and byte strings, Same sameNodeWithOptions, Memo and Ledger the two special
--              structs, Children and Collections the walks over children, Walk diffNodesWithOptions,
--              Quorum AnalyzeAccountSigners, analyzeAccountQuorum and extractAccountEntry.
--              Signers is pkg/lens/signer_diff.go, and Stats is pkg/lens/diff_stats.go.
--   Filter     pkg/lens/diff_filter.go: Segments has the matcher, Changes has PathFilter
--   Redact     pkg/lens/diff_redact.go: Policy has RedactionPolicy and placeholderFor, Tree redactNode and
--              RedactValue; Diffed has the end of DiffWithOptions: redaction, walk, filter and quorum
--   Patch      pkg/lens/format/json_patch.go: Pointer has jsonPointer and pointerSegments
--   HexInput   pkg/lens/hex_input.go, and normalizeInput of pkg/lens/decode.go
--   MultiStream  pkg/lens/multi_stream.go: Scanner has bufio.Scanner with ScanLines, Decoder the options,
--              Next, DecodeAll and DecodeMultiStream, Write the writers; the other modules are proofs.
--   Wasm       pkg/lens/wasm_disasm.go: Leb has the two readers of LEB128 numbers, Module the types and
--              resolveFunctionSignature, Code disassembleFunctionBody, Sections parseSection, Parse
--              ParseWASM, Search searchWasmInNode. Write is a writer of the format, which the source has
--              not; the other modules are proofs.
--   Stdin      pkg/lens/stdin_pipe.go, over the readers of Stream and MultiStream
--   Canonical  pkg/lens/canonical.go
--   Footprint  pkg/lens/footprint_diff.go
--   Tui        internal/cli/tui_tree.go: Rows has walk and the filter, State TUITree and its operations,
--              Render the screen, Keys readKey, HandleKey and Run; the other modules are proofs.
--   Tests      the theorems at concrete inputs
--
-- How the code is modelled. The raw value of an account is its four thresholds and the weights of its
-- signers. A text is the list of its bytes. The parser is a record; a reader takes it
-- and returns its result with the parser behind it; an error is the list of the sentinels that
-- errors.Is finds in it. The io.Reader is the list of the bytes still to come. Words of 32 bits keep
-- their wrap-around. Changes are returned as lists instead of appended to one. The walk over two trees
-- is a recursion on the left one: each left child comes with the function that compares it, and the
-- walks over lists and structs take these as arguments. The flags of the matching passes are lists of
-- the items that are not matched yet, and a map of counts is a function. The bytes.Reader of the WASM
-- parser is the list of the bytes that are left, and a read returns its value with the rest.
--
-- Fuel. The loops of the stream parser run on the length of the input: each round reads a byte at
-- least or stops, and running out is the outcome `stuck`, which no theorem allows. The loops over
-- path segments run on the length of the part, of which every round takes a bracket away, and so do
-- those of JSON pointers; the loop over hunks runs on the number of pairs, since every round goes
-- on behind the last. Next and DecodeAll of a multi-stream, and DecodeEach and Run, run on the
-- length of the input, since a line takes a byte. The loops over sections and instructions run on
-- the length of the input, of which each round takes a byte, and a LEB128 number has five rounds,
-- the last of which stops.
--
-- Left open, as parameters: float64 with its operations and strconv.Quote (the record GoLib),
-- strings.ToLower in Tui, path.Match (the argument `glob` of Filter and Redact), Decode, DecodeAs
-- and SafeMarshalBase64 of a payload (the arguments `decode`, `decode_as` and `encode` of
-- MultiStream and Stdin), Detect and xdr.Marshal in Canonical, and MarshalBinary and the labels of
-- ledger keys in Footprint. What is assumed of Decode, DecodeAs and SafeMarshalBase64, that they
-- return or that one inverts the other, is a hypothesis where it is used. Not modelled: what reads
-- the generated XDR types of the SDK (decoding, encoding, enrichment, explanations), the semantic
-- mode of the diff, the other formatters, the printed summary of a WASM module, and the command
-- line.
pub mod Prelude
pub mod Errors
pub mod Encoding
pub mod Stream
pub mod Stdin
pub mod Tree
pub mod Canonical
pub mod Tui
pub mod Lcs
pub mod LineDiff
pub mod Diff
pub mod Filter
pub mod Footprint
pub mod HexInput
pub mod MultiStream
pub mod Patch
pub mod Redact
pub mod Wasm
pub mod Tests
