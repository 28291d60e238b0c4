-- ===== src/Stdin/Total.antt =====
-- DecodeEach on every stream.
use stellar_xdr_lens.Stdin.{framing_unknown, framing_lines, framing_binary}
use stellar_xdr_lens.Prelude.{[], ◌+◌, ◌≡◌, true, none, some, Text, ℕ, Bool, false}
use stellar_xdr_lens.Errors.{ok, err, Result, Error, is_eof}
use stellar_xdr_lens.Stdin.{framing_of, StdinPipe, framing_unknown, framing_binary}
use stellar_xdr_lens.MultiStream.Decoder.{
  MultiStreamRecord, MultiStreamDecoder, new_multi_stream_decoder, next_record,
}
use stellar_xdr_lens.Stream.Parser.{StreamParser, new_stream_parser}
use stellar_xdr_lens.Encoding.Base64.{std_encode}
use stellar_xdr_lens.Stream.Next.{next, next}

-- An error that a source of records gives, io.EOF or another one.
abbrev pub EndsIn : {A X : Type 0} → Result A × X → Error → Bool → Type 0
EndsIn out e b = (out.0 ≡ err e) × (is_eof e ≡ b)

module _ {V : Type 0} (decode : Text → Result V) (decode_as : Text → Text → Result V) {S : Type 0}
    (fn : S → MultiStreamRecord V → Result S) where
  -- A chunk: what the stream parser reads next, decoded from its base64, in a record that has the number
  -- of the chunk for its index.
  pub data ChunkOf (p : StreamParser) (r : MultiStreamRecord V) (p' : StreamParser) : Type 0 where
    chunk :
        (raw : Text) (v : V)
        → next p ≡ (ok raw, p')
        → decode (std_encode raw) ≡ ok v
        → r ≡ record {
          record_index = p.chunk_index;
          line_number = 0;
          raw_line = [];
          record_value = some v;
          record_err = none;
        }
        → ChunkOf p r p'

  -- Why there is no chunk: the reader's error, or that of the decoder.
  pub data NoChunk (p : StreamParser) (e : Error) : Type 0 where
    unread : EndsIn (next p) e false → NoChunk p e
    undecoded :
        (raw : Text) (p' : StreamParser)
        → next p ≡ (ok raw, p')
        → decode (std_encode raw) ≡ err e
        → NoChunk p e

  -- The visit of the records of a source one by one, with the index that the first has: the callback is
  -- called on each of them, until the source ends or an error stops it.
  module _ {X : Type 0} (gives : X → MultiStreamRecord V → X → Type 0) (at_end : X → Type 0)
      (fails : X → Error → Type 0) where
    pub data Visits : ℕ → X → S → Result S → Type 0 where
      ended : {n : ℕ} {x : X} {s : S} → at_end x → Visits n x s (ok s)
      failed : {n : ℕ} {x : X} {s : S} {e : Error} → fails x e → Visits n x s (err e)
      refused :
          {n : ℕ} {x : X} {s : S} {e : Error} (r : MultiStreamRecord V) (x' : X)
          → gives x r x'
          → r.record_index ≡ n
          → fn s r ≡ err e
          → Visits n x s (err e)
      visited :
          {n : ℕ} {x : X} {s : S} {out : Result S} (r : MultiStreamRecord V) (x' : X) (s' : S)
          → gives x r x'
          → r.record_index ≡ n
          → fn s r ≡ ok s'
          → Visits (n + 1) x' s' out
          → Visits n x s out

  abbrev pub VisitsChunks : ℕ → StreamParser → S → Result S → Type 0
  VisitsChunks = Visits ChunkOf (λ p. (e : Error) × EndsIn (next p) e true) NoChunk

  abbrev pub VisitsLines : ℕ → MultiStreamDecoder → S → Result S → Type 0
  VisitsLines =
      Visits (λ d r d'. next_record decode decode_as d ≡ (ok r, d'))
        (λ d. (e : Error) × EndsIn (next_record decode decode_as d) e true)
        (λ d e. EndsIn (next_record decode decode_as d) e false)

  -- What DecodeEach does with a pipe, by the answer of Framing.
  pub data Decoded (p : StdinPipe) (s : S) : Result S → Type 0 where
    not_framed : {e : Error} → (framing_of p).1 ≡ some e → Decoded p s (err e)
    by_chunks :
        {out : Result S}
        → (framing_of p).0 ≡ framing_binary
        → (framing_of p).1 ≡ none
        → VisitsChunks 0 (new_stream_parser (framing_of p).2.rdr []) s out
        → Decoded p s out
    by_lines :
        {out : Result S}
        → (framing_of p).0 ≡ framing_lines
        → (framing_of p).1 ≡ none
        → VisitsLines 0 (new_multi_stream_decoder (framing_of p).2.rdr []) s out
        → Decoded p s out
