-- ===== src/Tests/Streams.antt =====
-- Streams of stream_parser.go.
use stellar_xdr_lens.Prelude.{◌≡◌, ◌∷◌, ◌++◌, [], false, refl, List, Text, codes, arith, length}
use stellar_xdr_lens.Stream.Limit.{Limited, next-Limited}
use stellar_xdr_lens.Stream.Parser.{
  StreamParser, framing_length_prefixed, framing_record_marking, framing_auto, framing_base64_lines,
}
use stellar_xdr_lens.Stream.Read.{read_length_prefixed, read_record_marking, read_base64_line}
use stellar_xdr_lens.Stream.Replay.{Drains, Item, marked, drain-marked}
use stellar_xdr_lens.Stream.Session.{Answered, DrainedWell, drain_well, next_answers}
use stellar_xdr_lens.Encoding.Big.{put_uint32_be}
use stellar_xdr_lens.Errors.{ok, err, premature_eof, eof}
use stellar_xdr_lens.Stream.Next.{drain, next}
use stellar_xdr_lens.Stream.Write.{write_length_prefixed, write_record_marking, write_base64_line}
use stellar_xdr_lens.Stream.ReadFull.{advance}
use stellar_xdr_lens.Stream.RoundTrip.{read_length_prefixed-write, read_record_marking-write}
use stellar_xdr_lens.Stream.Truncation.{drain-truncated}
use stellar_xdr_lens.Stream.Lines.{read_base64_line-write}

abbrev word : Text
word = codes "abcde"

abbrev marked_parser : StreamParser
marked_parser = record {
  input = write_record_marking word 2 ++ codes "xyz";
  framing = framing_record_marking;
  detected = framing_auto;
  max_record_size = 100;
  buf_size = 16;
  chunk_index = 3;
  total_bytes = 7;
  closed = false;
}

read_record_marking-write_example :
    read_record_marking marked_parser
    ≡ (ok word, advance marked_parser (codes "xyz") (length (write_record_marking word 2)))
read_record_marking-write_example =
    read_record_marking-write marked_parser word (codes "xyz") 2 refl (omega arith) (omega arith)
      (omega arith)

abbrev prefixed_parser : StreamParser
prefixed_parser = record {
  input = write_length_prefixed word ++ codes "xyz";
  framing = framing_length_prefixed;
  detected = framing_auto;
  max_record_size = 5;
  buf_size = 16;
  chunk_index = 0;
  total_bytes = 0;
  closed = false;
}

length_prefixed_back :
    read_length_prefixed prefixed_parser ≡ (ok word, advance prefixed_parser (codes "xyz") 9)
length_prefixed_back =
    read_length_prefixed-write prefixed_parser word (codes "xyz") refl (omega arith) (omega arith)

-- Two records, one in three fragments and one empty.
abbrev two_items : List Item
two_items = (word, 2) ∷ ([], 0) ∷ []

abbrev stream_parser : StreamParser
stream_parser = record marked_parser { input = marked two_items }

drain-marked_example : Drains 2 (drain stream_parser)
drain-marked_example =
    drain-marked two_items stream_parser refl refl refl
      ((omega arith, omega arith, omega arith), ((omega arith, omega arith, omega arith), tt))

next_answers_example : Answered stream_parser (next stream_parser)
next_answers_example = next_answers stream_parser

drain_well_example : DrainedWell stream_parser 0 (drain stream_parser)
drain_well_example = drain_well stream_parser

next-Limited_example : Limited 5 (next prefixed_parser)
unfolding write_length_prefixed put_uint32_be
next-Limited_example = next-Limited prefixed_parser (omega arith, omega arith)

-- A header that promises five bytes, and no byte behind it.
abbrev cut_parser : StreamParser
cut_parser = record prefixed_parser { input = put_uint32_be 5 }

drain-truncated_example :
    (Drains 0 (drain cut_parser)) × ((next cut_parser).0 ≡ err (premature_eof ∷ eof ∷ []))
drain-truncated_example =
    drain-truncated cut_parser 5 refl refl refl (omega arith) (omega arith) (omega arith)

abbrev line_parser : StreamParser
line_parser = record marked_parser {
  input = write_base64_line word ++ codes "xyz";
  framing = framing_base64_lines;
}

read_base64_line-write_example :
    read_base64_line line_parser
    ≡ (ok word, advance line_parser (codes "xyz") (length (write_base64_line word)))
read_base64_line-write_example =
    read_base64_line-write line_parser word (codes "xyz") refl
      (omega arith, (omega arith, (omega arith, (omega arith, (omega arith, tt))))) (omega arith)
      (omega arith) (omega arith)
