-- ===== src/Transport/Payload/Parsing.antt =====
-- pkg/transport/receiver.go: what `parseBSONDocs` gives on any payload, and when it does not end.
use go_mongo_sync.Prelude.{
  ℕ, zero, suc, ◌+◌, ◌≤◌, ◌<◌, ◌≡◌, refl, sym, ap, ◌∙◌, none, some, List, [], ◌∷◌, ◌++◌, ltb, ◌==◌,
  length, take, drop, arith, flatten, take-append-drop, length-drop, Bool-cases, inl, inr, ==_iff,
  subst,
}
use go_mongo_sync.Prelude.Bytes.{Bytes, le_nat}
use go_mongo_sync.Prelude.Result.{ok, err}
use go_mongo_sync.Transport.Payload.{parse_bson_docs, cons_doc, Parsed}

-- A size of zero at the front of what is left.
abbrev pub ZeroSize : Bytes → Type 0
ZeroSize rest = (4 ≤ length rest) × (le_nat (take 4 rest) ≡ 0)

-- A zero size where the next document begins keeps the loop going for ever: no number of rounds
-- is enough.
parse_bson_docs-hangs :
    (fuel : ℕ) (payload : Bytes) → ZeroSize payload → parse_bson_docs fuel payload ≡ none
unfolding parse_bson_docs
parse_bson_docs-hangs zero payload z = refl
parse_bson_docs-hangs (suc fuel) payload z =
    rw z.1 (ground (arith, parse_bson_docs-hangs fuel payload z))

abbrev doc_size : Bytes → ℕ
doc_size payload = le_nat (take 4 payload)

parse_bson_docs-none_step :
    (fuel : ℕ) (payload : Bytes)
    → parse_bson_docs (suc fuel) payload ≡ none
    → (4 ≤ length payload)
      × (doc_size payload ≤ length payload)
      × (parse_bson_docs fuel (drop (doc_size payload) payload) ≡ none)
unfolding parse_bson_docs
parse_bson_docs-none_step fuel payload h = ground arith

drop-drop : (n m : ℕ) (xs : Bytes) → drop n (drop m xs) ≡ drop (m + n) xs
drop-drop n zero xs = ap (λ k. drop k xs) zero_add
  where
    zero_add : n ≡ 0 + n
    zero_add = omega arith
drop-drop n (suc m) [] = drop_nil n ∙ sym (drop_nil (suc m + n))
  where
    drop_nil : (k : ℕ) → drop {A = ℕ} k [] ≡ []
    drop_nil zero = refl
    drop_nil (suc k) = refl
drop-drop n (suc m) (x ∷ xs) = drop-drop n m xs ∙ ap (λ k. drop k (x ∷ xs)) suc_add
  where
    suc_add : suc (m + n) ≡ suc m + n
    suc_add = omega arith

-- With more rounds than bytes, running out of rounds means that a zero size was met.
parse_bson_docs-none :
    (fuel : ℕ) (payload : Bytes)
    → length payload < fuel
    → parse_bson_docs fuel payload ≡ none
    → (offset : ℕ) × ZeroSize (drop offset payload)
parse_bson_docs-none zero payload f h = absurd (omega arith)
parse_bson_docs-none (suc fuel) payload f h =
    let (headed, inside, later) = parse_bson_docs-none_step fuel payload h in
    elim (Bool-cases (doc_size payload == 0)) [
      | inl z ↦ (0, (headed, (==_iff (doc_size payload) 0).0 z))
      | inr nz ↦
          let (offset, z) =
            parse_bson_docs-none fuel (drop (doc_size payload) payload)
              (ground (arith, length-drop (doc_size payload) payload)) later in
          (
            doc_size payload + offset,
            subst ZeroSize (drop-drop offset (doc_size payload) payload) z,
          )
    ]

abbrev Covers : Bytes → Parsed → Type 0
Covers payload (some (ok docs)) = flatten docs ≡ payload
Covers payload (some (err _)) = Unit
Covers payload none = Unit

Covers-cons_doc :
    (n : ℕ) (payload : Bytes) (r : Parsed)
    → Covers (drop n payload) r
    → Covers payload (cons_doc (take n payload) r)
Covers-cons_doc n payload none h = tt
Covers-cons_doc n payload (some (err e)) h = tt
Covers-cons_doc n payload (some (ok docs)) h =
    ap (λ rest. take n payload ++ rest) h ∙ take-append-drop n payload

nil_of_length : (xs : Bytes) → length xs ≡ 0 → [] ≡ xs
nil_of_length [] h = refl
nil_of_length (x ∷ xs) h = absurd (omega arith)

Covers-parse_bson_docs :
    (fuel : ℕ) (payload : Bytes) → Covers payload (parse_bson_docs fuel payload)
unfolding parse_bson_docs
Covers-parse_bson_docs zero payload = tt
Covers-parse_bson_docs (suc fuel) payload = elim (Bool-cases (length payload == 0)) [
  | inl e ↦ rw e (nil_of_length payload ((==_iff (length payload) 0).0 e))
  | inr ne ↦ elim (Bool-cases (ltb (length payload) 4)) [
    | inl e ↦ rw (ne, e) tt
    | inr le ↦ elim (Bool-cases (ltb (length payload) (doc_size payload))) [
      | inl e ↦ rw (ne, le, e) tt
      | inr fits ↦
          rw (ne, le, fits)
            (Covers-cons_doc (doc_size payload) payload _
              (Covers-parse_bson_docs fuel (drop (doc_size payload) payload)))
    ]
  ]
]

-- Documents that are parsed are the payload cut into pieces: no byte is lost, added or moved.
flatten-parse_bson_docs :
    (fuel : ℕ) (payload : Bytes) (docs : List Bytes)
    → parse_bson_docs fuel payload ≡ some (ok docs)
    → flatten docs ≡ payload
flatten-parse_bson_docs fuel payload docs e =
    subst (Covers payload) e (Covers-parse_bson_docs fuel payload)
