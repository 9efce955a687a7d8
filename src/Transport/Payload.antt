-- ===== src/Transport/Payload.antt =====
-- pkg/transport/sender.go and receiver.go: the payload of a document batch, which is the length of
-- the stream's name in four bytes, the name, and the BSON documents one after another. A name and
-- a document are byte strings; a document begins with its own size in four bytes.
pub mod RoundTrip
pub mod Parsing
use go_mongo_sync.Prelude.{
  ℕ, zero, suc, ◌+◌, ◌%◌, ◌^◌, Bool, ◌&&◌, Option, none, some, List, [], ◌∷◌, ◌++◌, ltb, leb, ◌==◌,
  if◌then◌else◌, length, take, drop,
}
use go_mongo_sync.Prelude.Bytes.{Bytes, be_bytes, be_nat, le_nat, slice}
use go_mongo_sync.Prelude.Result.{Result, ok, err}

-- `concatenateBSONDocs`, which never fails.
unfoldable pub concatenate_bson_docs : List Bytes → Bytes
concatenate_bson_docs [] = []
concatenate_bson_docs (doc ∷ docs) = doc ++ concatenate_bson_docs docs

-- The first part of `sendStandardBatch`: the documents behind the name of their stream.
unfoldable pub batch_payload : Bytes → List Bytes → Bytes
unfolding concatenate_bson_docs
batch_payload stream docs =
    be_bytes 4 (length stream % 2 ^ 32) ++ (stream ++ concatenate_bson_docs docs)

abbrev pub max_stream_name : ℕ
max_stream_name = 1000

-- The receiver's test for a name in front of the documents.
has_name : Bytes → Bool
has_name payload =
    let n = be_nat (slice 0 4 payload) in
    ltb 0 n && (ltb n max_stream_name && leb (4 + n) (length payload))

-- The name of the stream and the documents; `current` is the name that the receiver has so far.
unfoldable pub split_stream_name : Bytes → Bytes → Bytes × Bytes
unfolding has_name
split_stream_name current payload =
    let n = be_nat (slice 0 4 payload) in
    if leb 4 (length payload) && has_name payload
    then (slice 4 (4 + n) payload, drop (4 + n) payload)
    else (current, payload)

pub data ParseError : Type 0 where
  incomplete_header : ParseError
  incomplete_document : ℕ → ParseError

abbrev pub Parsed : Type 0
Parsed = Option (Result ParseError (List Bytes))

-- `docs = append(docs, doc)`; an error returns no documents.
abbrev pub cons_doc : Bytes → Parsed → Parsed
cons_doc doc none = none
cons_doc doc (some (ok docs)) = some (ok (doc ∷ docs))
cons_doc doc (some (err e)) = some (err e)

-- The loop of `parseBSONDocs` over what is left at `offset`; `none` is fuel that ran out.
unfoldable pub parse_bson_docs : ℕ → Bytes → Parsed
parse_bson_docs zero payload = none
parse_bson_docs (suc fuel) payload =
    let doc_size = le_nat (take 4 payload) in
    let rest = cons_doc (take doc_size payload) (parse_bson_docs fuel (drop doc_size payload)) in
    if length payload == 0
    then some (ok [])
    else if ltb (length payload) 4
    then some (err incomplete_header)
    else if ltb (length payload) doc_size
    then some (err (incomplete_document doc_size))
    else rest
