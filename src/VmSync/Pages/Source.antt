-- ===== src/VmSync/Pages/Source.antt =====
-- cmd/vm-sync/main.go: the copy of a collection against the documents of the source.
use go_mongo_sync.Prelude.{
  ℕ, ◌<◌, ◌≡◌, refl, sym, ap, ap₂, ◌∙◌, subst, true, false, Bool-cases, Option-cases, inl, inr, ◌⊎◌,
  ◌↔◌, Option, none, some, List, [], ◌∷◌, length,
}
use mathlib.Core.Bool.{false≢true}
use go_mongo_sync.Prelude.Bytes.{Bytes, bytes_eq, bytes_eq_refl, bytes_eq→eq}
use go_mongo_sync.Prelude.Maps.{lookup, IsMap}
use go_mongo_sync.VmSync.Pages.{
  WorkerPool, synced, estimate_memory_usage, can_allocate_memory, total_pages, upserts, upsert_of,
  sync_collection_data,
}
use go_mongo_sync.VmSync.Pages.Upserts.{Upserts}
use go_mongo_sync.VmSync.Pages.Located.{page}
use go_mongo_sync.VmSync.Pages.Copy.{arrives, sync_collection_data-copies}

module _ {ℓ} {D : Type ℓ} (unmarshal : Bytes → Option D) (id_of : D → Option Bytes) where
  -- A raw document that can be decoded, to a document with an id.
  abbrev pub Carries : Bytes → Bytes → D → Type ℓ
  Carries raw id d = (unmarshal raw ≡ some d) × (id_of d ≡ some id)

  abbrev pub Has : Bytes → D → List Bytes → Type ℓ
  Has id d [] = ⊥ × Unit {ℓ}
  Has id d (raw ∷ docs) = Carries raw id d ⊎ Has id d docs

  -- Of the documents none has the id of another.
  abbrev pub Distinct : List Bytes → Type ℓ
  Distinct [] = Unit
  Distinct (raw ∷ docs) =
      ((id : Bytes) (d d' : D) → Carries raw id d → ¬ Has id d' docs) × Distinct docs

  module _ {κ} {C : Type κ} (bulk_write : List (Bytes × D) → C → Option C) where
    upsert_of-Carries :
        (raw id : Bytes) (d : D)
        → Carries raw id d
        → upsert_of unmarshal id_of bulk_write raw ≡ some (id, d)
    upsert_of-Carries raw id d (decoded, keyed) = rw (decoded, keyed) refl

    Carries-upsert_of :
        (raw id : Bytes) (d : D)
        → upsert_of unmarshal id_of bulk_write raw ≡ some (id, d)
        → Carries raw id d
    Carries-upsert_of raw id d h = elim (Option-cases (unmarshal raw)) [
      | inl e ↦ absurd (cc (rw e at h))
      | inr (doc, e) ↦ elim (Option-cases (id_of doc)) [
        | inl e' ↦ absurd (cc (rw (e, e') at h))
        | inr (key, e') ↦
            let same : Path (Option (Bytes × D)) (some (key, doc)) (some (id, d)) =
              rw (e, e') at h in
            (cc, cc)
      ]
    ]

    -- Of an entry in front of a map, what stands under an id.
    Found : Bytes → D → List (Bytes × D) → Type ℓ
    Found id d ops = lookup id ops ≡ some d

    Matches : List Bytes → List (Bytes × D) → Type ℓ
    Matches docs ops = (id : Bytes) (d : D) → Found id d ops ↔ Has id d docs

    skipped :
        (raw : Bytes) (docs : List Bytes) (ops : List (Bytes × D))
        → upsert_of unmarshal id_of bulk_write raw ≡ none
        → Matches docs ops
        → Matches (raw ∷ docs) ops
    unfolding Matches Found
    skipped raw docs ops missing m id d = (
      λ found. inr ((m id d).0 found),
      λ has. elim has [
        | inl carries ↦ absurd (cc (missing, upsert_of-Carries raw id d carries))
        | inr later ↦ (m id d).1 later
      ],
    )

    put_in_front :
        (raw k : Bytes) (v : D) (docs : List Bytes) (ops : List (Bytes × D))
        → upsert_of unmarshal id_of bulk_write raw ≡ some (k, v)
        → ((d : D) → ¬ Has k d docs)
        → Matches docs ops
        → Matches (raw ∷ docs) ((k, v) ∷ ops)
    unfolding Matches Found lookup
    put_in_front raw k v docs ops there alone m id d = elim (Bool-cases (bytes_eq id k)) [
      | inl e ↦ rw e (
        λ found. inl (
            Carries-upsert_of raw id d (
              there
              ∙ ap some (ap₂ (λ a b. (a, b)) (sym (bytes_eq→eq id k e)) (injective v d found)))),
        λ has. elim has [
          | inl carries ↦ same_value k id v d (sym there ∙ upsert_of-Carries raw id d carries)
          | inr later ↦ absurd (alone d (subst (λ x. Has x d docs) (bytes_eq→eq id k e) later))
        ],
      )
      | inr e ↦ rw e (
        λ found. inr ((m id d).0 found),
        λ has. elim has [
          | inl carries ↦
              absurd (other_key k id v d e (sym there ∙ upsert_of-Carries raw id d carries))
          | inr later ↦ (m id d).1 later
        ],
      )
    ]
      where
        injective : (v d : D) → Path (Option D) (some v) (some d) → v ≡ d
        injective v d h = cc

        same_value :
            (k id : Bytes) (v d : D)
            → Path (Option (Bytes × D)) (some (k, v)) (some (id, d))
            → Path (Option D) (some v) (some d)
        same_value k id v d h = cc

        other_key :
            (k id : Bytes) (v d : D)
            → bytes_eq id k ≡ false
            → ¬ (Path (Option (Bytes × D)) (some (k, v)) (some (id, d)))
        other_key k id v d e h =
            false≢true (sym e ∙ (ap (λ x. bytes_eq id x) (same_key h) ∙ bytes_eq_refl id))
          where
            same_key : Path (Option (Bytes × D)) (some (k, v)) (some (id, d)) → k ≡ id
            same_key h = cc

    not_there :
        (k : Bytes) (docs : List Bytes) (ops : List (Bytes × D))
        → ((d : D) → ¬ Has k d docs)
        → Matches docs ops
        → lookup k ops ≡ none
    unfolding Matches Found
    not_there k docs ops alone m = elim (Option-cases (lookup k ops)) [
      | inl e ↦ e
      | inr (d, e) ↦ absurd (alone d ((m k d).0 e))
    ]

    -- The upserts of documents with distinct ids are those documents, each under its id.
    upserts-Matches :
        (docs : List Bytes)
        → Distinct docs
        → Matches docs (upserts unmarshal id_of bulk_write docs)
          × IsMap (upserts unmarshal id_of bulk_write docs)
    unfolding upserts IsMap
    upserts-Matches [] distinct =
        (unfold Matches Found lookup in (λ id d. (λ h. absurd cc, λ h. absurd h.0)), tt)
    upserts-Matches (raw ∷ docs) (apart, distinct) =
        let (m, ids) = upserts-Matches docs distinct in
        let ops = upserts unmarshal id_of bulk_write docs in
        elim (Option-cases (upsert_of unmarshal id_of bulk_write raw)) [
          | inl missing ↦ rw missing (skipped raw docs ops missing m, ids)
          | inr ((k, v), there) ↦
              let alone = λ (d : D). apart k v d (Carries-upsert_of raw k v there) in
              rw there
                (put_in_front raw k v docs ops there alone m, (not_there k docs ops alone m, ids))
        ]

-- A copy succeeds, and the target then holds a document under an id exactly if the source has that
-- document with that id, in whatever order the pages after the first come in: the other side answers
-- each page and the count of a source that does not change, whose ids are distinct; dropping leaves
-- the target empty; bulk writes succeed; and each page alone fits in the memory that is left.
-- Documents that cannot be decoded or have no id are left out.
pub sync_collection_data-Has {ℓ κ} :
    {D : Type ℓ} {C : Type κ} (unmarshal : Bytes → Option D) (id_of : D → Option Bytes)
    (bulk_write : List (Bytes × D) → C → Option C) (find : Bytes → C → Option D)
    → Upserts find bulk_write
    → (docs : List Bytes) → Distinct unmarshal id_of docs
    → (page_size : ℕ) → 0 < page_size
    → (drop_collection : C → Option C) (fetch : ℕ → ℕ → Option (List Bytes))
      (cloud_count : Option ℕ) (arrivals : ℕ → List ℕ)
    → ((k : ℕ) → fetch k page_size ≡ some (page page_size docs k))
    → (wp : WorkerPool) (c c0 : C) → cloud_count ≡ some (length docs)
    → drop_collection c ≡ some c0
    → ((id : Bytes) → find id c0 ≡ none)
    → ((k : ℕ)
        → 0 < k
        → k < total_pages (length docs) page_size
        → arrives k (arrivals (total_pages (length docs) page_size)) ≡ true)
    → ((k : ℕ) → can_allocate_memory (estimate_memory_usage (page page_size docs k)) wp ≡ true)
    → (c' : C) × (sync_collection_data unmarshal id_of bulk_write drop_collection fetch cloud_count
          arrivals wp page_size c
        ≡ synced c')
      × ((id : Bytes) (d : D) → (find id c' ≡ some d) ↔ Has unmarshal id_of id d docs)
unfolding Matches Found
sync_collection_data-Has unmarshal id_of bulk_write find writes docs distinct page_size positive
      drop_collection fetch cloud_count arrivals answers wp c c0 counted emptied empty all fits =
    let (m, ids) = upserts-Matches unmarshal id_of bulk_write docs distinct in
    let (c', copied, held) =
      sync_collection_data-copies unmarshal id_of bulk_write find writes docs ids page_size positive
        drop_collection fetch cloud_count arrivals answers wp c c0 counted emptied empty all fits in
    (c', copied, λ id d. (λ h. (m id d).0 (sym (held id) ∙ h), λ h. held id ∙ (m id d).1 h))
