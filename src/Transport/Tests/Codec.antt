-- ===== src/Transport/Tests/Codec.antt =====
-- Runs of the header's and the payload's encoding.
use go_mongo_sync.Prelude.{◌≡◌, refl, some, [], ◌∷◌, ◌++◌, arith, replicate}
use go_mongo_sync.Prelude.Bytes.{Bytes}
use go_mongo_sync.Prelude.Result.{ok}
use go_mongo_sync.Transport.Protocol.{FrameHeader, InRange, encode_header}
use go_mongo_sync.Transport.Payload.{concatenate_bson_docs, parse_bson_docs}
use go_mongo_sync.Transport.Payload.RoundTrip.{parse_bson_docs-concatenate_bson_docs}
use go_mongo_sync.Transport.Tests.Samples.{doc, doc-IsDocument}

abbrev header : FrameHeader
header = record {
  frame_len = 45;
  flags = 4;
  msg_type = 1;
  version = 1;
  stream_id = 300;
  batch_seq = 70000;
  payload_checksum = 99;
  reserved = 1 ∷ [];
}

header-InRange : InRange header
header-InRange = omega arith

header_bytes :
    encode_header header
    ≡ (0 ∷ 0 ∷ 0 ∷ 45 ∷ 4 ∷ 1 ∷ 0 ∷ 1 ∷ [])
      ++ ((0 ∷ 0 ∷ 0 ∷ 0 ∷ 0 ∷ 0 ∷ 1 ∷ 44 ∷ [])
          ++ ((0 ∷ 0 ∷ 0 ∷ 0 ∷ 0 ∷ 1 ∷ 17 ∷ 112 ∷ []) ++ (0 ∷ 0 ∷ 0 ∷ 0 ∷ 0 ∷ 0 ∷ 0 ∷ 99 ∷ [])))
unfolding encode_header
header_bytes = refl

parse_bson_docs-concatenate_bson_docs_example :
    parse_bson_docs 3 (concatenate_bson_docs (doc ∷ doc ∷ [])) ≡ some (ok (doc ∷ doc ∷ []))
parse_bson_docs-concatenate_bson_docs_example =
    parse_bson_docs-concatenate_bson_docs (doc ∷ doc ∷ []) 3 (doc-IsDocument, (doc-IsDocument, tt))
      (omega arith)

abbrev zeros : Bytes
zeros = replicate 6 0
