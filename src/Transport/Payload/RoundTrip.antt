-- ===== src/Transport/Payload/RoundTrip.antt =====
-- pkg/transport: the receiver recovers the stream's name and the documents that the sender packed.
use go_mongo_sync.Prelude.{
  ℕ, zero, suc, ◌+◌, ◌%◌, ◌^◌, ◌≤◌, ◌<◌, ◌≡◌, refl, ap, ◌∙◌, true, false, some, List, [], ◌∷◌, ◌++◌,
  length, take, drop, All, arith, ◌⊎◌, length-append, take-append, drop-append, le→leb,
}
use go_mongo_sync.Prelude.Bytes.{
  Bytes, be_bytes, be_nat, le_nat, slice, be_nat-be_bytes, length-be_bytes,
}
use go_mongo_sync.Prelude.Result.{ok}
use go_mongo_sync.Transport.Payload.{
  concatenate_bson_docs, batch_payload, max_stream_name, has_name, split_stream_name,
  parse_bson_docs, cons_doc,
}

-- A document as BSON lays it out: its first four bytes are its size.
pub record IsDocument (doc : Bytes) : Type 0 where
  pub headed : 4 ≤ length doc
  pub sized : le_nat (take 4 doc) ≡ length doc

take-append-le : (n : ℕ) (xs ys : Bytes) → n ≤ length xs → take n (xs ++ ys) ≡ take n xs
take-append-le zero xs ys h = refl
take-append-le (suc n) [] ys h = absurd (omega arith)
take-append-le (suc n) (x ∷ xs) ys h = ap (λ r. x ∷ r) (take-append-le n xs ys (omega arith))

doc_size-append : (doc rest : Bytes) → IsDocument doc → le_nat (take 4 (doc ++ rest)) ≡ length doc
doc_size-append doc rest d = ap le_nat (take-append-le 4 doc rest d.headed) ∙ d.sized

parse_bson_docs-step :
    (fuel : ℕ) (doc rest : Bytes)
    → IsDocument doc
    → parse_bson_docs (suc fuel) (doc ++ rest) ≡ cons_doc doc (parse_bson_docs fuel rest)
unfolding parse_bson_docs
parse_bson_docs-step fuel doc rest d =
    rw
      (
        doc_size-append doc rest d,
        take-append (length doc) doc rest refl,
        drop-append (length doc) doc rest refl,
      )
      (ground (arith, length-append doc rest, d))

-- Documents that carry their sizes, concatenated and parsed with more rounds than documents, come
-- back as they were, in order.
pub parse_bson_docs-concatenate_bson_docs :
    (docs : List Bytes) (fuel : ℕ)
    → All IsDocument docs
    → length docs < fuel
    → parse_bson_docs fuel (concatenate_bson_docs docs) ≡ some (ok docs)
unfolding concatenate_bson_docs
parse_bson_docs-concatenate_bson_docs [] zero h f = absurd (omega arith)
parse_bson_docs-concatenate_bson_docs [] (suc fuel) h f = unfold parse_bson_docs in refl
parse_bson_docs-concatenate_bson_docs (doc ∷ docs) zero h f = absurd (omega arith)
parse_bson_docs-concatenate_bson_docs (doc ∷ docs) (suc fuel) h f =
    parse_bson_docs-step fuel doc (concatenate_bson_docs docs) h.0
    ∙ rw (parse_bson_docs-concatenate_bson_docs docs fuel h.1 (omega arith))

module _ (stream : Bytes) (docs : List Bytes) where
  name_length :
      length stream < 2 ^ 32 → be_nat (slice 0 4 (batch_payload stream docs)) ≡ length stream
  unfolding batch_payload
  name_length h = be_nat-be_bytes 4 (length stream % 2 ^ 32) (omega arith) ∙ omega arith

  pub length-batch_payload :
      length (batch_payload stream docs) ≡ 4 + length stream + length (concatenate_bson_docs docs)
  unfolding batch_payload
  length-batch_payload = omega (
    arith,
    length-append (be_bytes 4 (length stream % 2 ^ 32)) (stream ++ concatenate_bson_docs docs),
    length-append stream (concatenate_bson_docs docs),
    length-be_bytes 4 (length stream % 2 ^ 32),
  )

  drop_length : drop 4 (batch_payload stream docs) ≡ stream ++ concatenate_bson_docs docs
  unfolding batch_payload
  drop_length = refl

  slice_name : (n : ℕ) → n ≡ length stream → slice 4 (4 + n) (batch_payload stream docs) ≡ stream
  slice_name n e =
      ap (λ k. take k (drop 4 (batch_payload stream docs))) (omega arith)
      ∙ (ap (take n) drop_length ∙ take-append n stream (concatenate_bson_docs docs) e)

  drop_name :
      (n : ℕ)
      → n ≡ length stream
      → drop (4 + n) (batch_payload stream docs) ≡ concatenate_bson_docs docs
  unfolding batch_payload
  drop_name n e =
      let four_more : 4 + n ≡ suc (suc (suc (suc n))) = omega arith in
      rw four_more (drop-append n stream (concatenate_bson_docs docs) e)

  has_name-short :
      0 < length stream
      → length stream < max_stream_name
      → has_name (batch_payload stream docs) ≡ true
  unfolding has_name
  has_name-short h lt = ground (arith, name_length (omega arith), length-batch_payload)

  has_name-long :
      (length stream ≡ 0) ⊎ (max_stream_name ≤ length stream)
      → length stream < 2 ^ 32
      → has_name (batch_payload stream docs) ≡ false
  unfolding has_name
  has_name-long h lt = ground (arith, name_length lt)

  -- The receiver finds the name of a stream, and the documents behind it, when the name has at
  -- least one byte and fewer than 1000, whatever name it had for the stream before.
  pub split_stream_name-batch_payload :
      (current : Bytes)
      → 0 < length stream
      → length stream < max_stream_name
      → split_stream_name current (batch_payload stream docs) ≡ (stream, concatenate_bson_docs docs)
  unfolding split_stream_name
  split_stream_name-batch_payload current h lt =
      rw
        (
          has_name-short h lt,
          le→leb 4 (length (batch_payload stream docs)) (omega (arith, length-batch_payload)),
        )
        λ i. (slice_name _ (name_length (omega arith)) i, drop_name _ (name_length (omega arith)) i)

  -- A name of 1000 bytes or more (and below 2^32), and the empty name, are not found: the receiver
  -- keeps the name it had and takes the length and the name for documents.
  split_stream_name-long :
      (current : Bytes)
      → (length stream ≡ 0) ⊎ (max_stream_name ≤ length stream)
      → length stream < 2 ^ 32
      → split_stream_name current (batch_payload stream docs) ≡ (current, batch_payload stream docs)
  unfolding split_stream_name
  split_stream_name-long current h lt = rw (has_name-long h lt) (ground arith)
