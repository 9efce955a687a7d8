-- ===== src/VmSync/Pages/Copy.antt =====
-- cmd/vm-sync/main.go: the copy of a collection, whatever the order in which its pages come in.
use go_mongo_sync.Prelude.{
  ℕ, zero, suc, ◌*◌, ◌<◌, ◌≡◌, refl, sym, ap, ap₂, ◌∙◌, subst, Bool, true, false, ◌||◌, ==_iff,
  Bool-cases, Option-cases, inl, inr, ◌⊎◌, Option, none, some, List, [], ◌∷◌, map, length,
  length-take, length-drop, drop, ltb, ltb→le, ◌==◌, arith,
}
use go_mongo_sync.Prelude.Bytes.{Bytes}
use go_mongo_sync.Prelude.Maps.{lookup, or_else, IsMap}
use go_mongo_sync.VmSync.Pages.{
  WorkerPool, SyncResult, synced, or_failed, estimate_memory_usage, can_allocate_memory,
  allocate_memory, release_memory, total_pages, upserts, insert_documents_batch, process_results,
  remaining_pages, sync_collection_data,
}
use go_mongo_sync.VmSync.Pages.Upserts.{Upserts, insert_documents_batch-Holding}
use go_mongo_sync.VmSync.Pages.Located.{
  page, before_end, Within, or_else-Within, or_else-held, or_else-found, located, page-IsMap,
  page-Within,
}

abbrev pub arrives : ℕ → List ℕ → Bool
arrives k [] = false
arrives k (x ∷ xs) = k == x || arrives k xs

release-allocate : (size : ℕ) (wp : WorkerPool) → release_memory size (allocate_memory size wp) ≡ wp
unfolding release_memory allocate_memory
release-allocate size wp = ap (λ n. record wp { current_memory = n }) (omega arith)

module _ {ℓ κ} {D : Type ℓ} {C : Type κ} (unmarshal : Bytes → Option D) (id_of : D → Option Bytes)
    (bulk_write : List (Bytes × D) → C → Option C) (find : Bytes → C → Option D)
    (writes : Upserts find bulk_write) (docs : List Bytes)
    (distinct : IsMap (upserts unmarshal id_of bulk_write docs)) (page_size : ℕ)
    (positive : 0 < page_size) where
  abbrev ups : List Bytes → List (Bytes × D)
  ups xs = upserts unmarshal id_of bulk_write xs

  abbrev page_at : ℕ → List Bytes
  page_at k = page page_size docs k

  -- What the pages of a list do to a collection that holds documents of the source only.
  record Advanced (ks : List ℕ) (c c' : C) : Type (ℓ ⊔ κ) where
    within :
        (id : Bytes)
        → Within (lookup id (ups docs)) (find id c)
        → Within (lookup id (ups docs)) (find id c')
    held : (id : Bytes) → find id c ≡ lookup id (ups docs) → find id c' ≡ lookup id (ups docs)
    found :
        (id : Bytes) (k : ℕ)
        → arrives k ks ≡ true
        → lookup id (ups (page_at k)) ≡ lookup id (ups docs)
        → Within (lookup id (ups docs)) (find id c)
        → find id c' ≡ lookup id (ups docs)

  arrives-cases :
      (k k' : ℕ) (ks : List ℕ) → arrives k' (k ∷ ks) ≡ true → (k' ≡ k) ⊎ (arrives k' ks ≡ true)
  arrives-cases k k' ks h = elim (Bool-cases (k' == k)) [
    | inl e ↦ inl ((==_iff k' k).0 e)
    | inr e ↦ inr (sym (ap (λ b. b || arrives k' ks) e) ∙ h)
  ]

  -- A page is written, and then the rest.
  advance :
      (k : ℕ) (ks : List ℕ) (c c1 c' : C)
      → ((id : Bytes) → find id c1 ≡ or_else (lookup id (ups (page_at k))) (find id c))
      → Advanced ks c1 c'
      → Advanced (k ∷ ks) c c'
  advance k ks c c1 c' e a = record {
    within = λ id w. a.within id (within1 id w);
    held = λ id h. a.held id (
        e id
        ∙ or_else-held (lookup id (ups docs)) (lookup id (ups (page_at k))) (find id c) (on_page id)
            h);
    found = λ id k' h same w. elim (arrives-cases k k' ks h) [
      | inl here ↦ a.held id (
          e id
          ∙ or_else-found (lookup id (ups docs)) (lookup id (ups (page_at k))) (find id c)
              (ap (λ j. lookup id (ups (page_at j))) (sym here) ∙ same) w)
      | inr later ↦ a.found id k' later same (within1 id w)
    ];
  }
    where
      on_page : (id : Bytes) → Within (lookup id (ups docs)) (lookup id (ups (page_at k)))
      on_page =
          page-Within unmarshal id_of bulk_write find writes docs distinct page_size positive k

      within1 :
          (id : Bytes)
          → Within (lookup id (ups docs)) (find id c)
          → Within (lookup id (ups docs)) (find id c1)
      within1 id w =
          subst (λ o. Within (lookup id (ups docs)) o) (sym (e id))
            (or_else-Within (lookup id (ups docs)) (lookup id (ups (page_at k))) (find id c)
              (on_page id) w)

  no_upserts : (xs : List Bytes) (id : Bytes) → (length xs == 0) ≡ true → lookup id (ups xs) ≡ none
  unfolding lookup upserts
  no_upserts [] id h = refl
  no_upserts (x ∷ xs) id h = absurd (omega (arith, (==_iff (suc (length xs)) 0).0 h))

  -- What a run of `process_results` over the pages of a list ends in.
  Ends : List ℕ → C → SyncResult C → Type (ℓ ⊔ κ)
  Ends ks c r = (c' : C) × (r ≡ synced c') × Advanced ks c c'

  process_results-Ends :
      (wp : WorkerPool) (ks : List ℕ) (c : C)
      → ((k : ℕ) → can_allocate_memory (estimate_memory_usage (page_at k)) wp ≡ true)
      → Ends ks c (process_results unmarshal id_of bulk_write wp (map (λ k. some (page_at k)) ks) c)
  unfolding process_results Ends
  process_results-Ends wp [] c fits =
      (c, refl, record { within = λ id w. w; held = λ id h. h; found = λ id k h same w. absurd cc })
  process_results-Ends wp (k ∷ ks) c fits = elim (Bool-cases (length (page_at k) == 0)) [
    | inl e ↦
        let (c', e', a) = process_results-Ends wp ks c fits in
        (
          c',
          rw e e',
          advance k ks c c c'
              (λ id. ap (λ o. or_else o (find id c)) (sym (no_upserts (page_at k) id e))) a,
        )
    | inr e ↦
        let (c1, e1, held) =
          insert_documents_batch-Holding unmarshal id_of bulk_write find writes (page_at k) c (
            page-IsMap unmarshal id_of bulk_write find writes docs distinct page_size positive k) in
        let (c', e', a) = process_results-Ends wp ks c1 fits in
        (
          c',
          rw (e, fits k, e1, release-allocate (estimate_memory_usage (page_at k)) wp) e',
          advance k ks c c1 c' held a,
        )
  ]

  module _ (drop_collection : C → Option C) (fetch : ℕ → ℕ → Option (List Bytes))
      (cloud_count : Option ℕ) (arrivals : ℕ → List ℕ)
      (answers : (k : ℕ) → fetch k page_size ≡ some (page_at k)) where
    fetched : (ks : List ℕ) → map (λ k. fetch k page_size) ks ≡ map (λ k. some (page_at k)) ks
    fetched [] = refl
    fetched (k ∷ ks) = ap₂ (λ p ps. p ∷ ps) (answers k) (fetched ks)

    abbrev AllArrive : ℕ → List ℕ → Type 0
    AllArrive total ks = (k : ℕ) → 0 < k → k < total → arrives k ks ≡ true

    abbrev rest : WorkerPool → ℕ → C → SyncResult C
    rest wp total c =
        remaining_pages unmarshal id_of bulk_write drop_collection fetch cloud_count arrivals wp
          page_size total c

    remaining_pages-Ends :
        (wp : WorkerPool) (total : ℕ) (c : C)
        → ((k : ℕ) → can_allocate_memory (estimate_memory_usage (page_at k)) wp ≡ true)
        → AllArrive total (arrivals total)
        → (ks : List ℕ) × AllArrive total ks
          × Ends ks c (
              remaining_pages unmarshal id_of bulk_write drop_collection fetch cloud_count arrivals
                wp page_size total c)
    unfolding Ends
    remaining_pages-Ends wp total c fits all = elim (Bool-cases (ltb 1 total)) [
      | inl h ↦ (
        arrivals total,
        all,
        rw (h, fetched (arrivals total)) (process_results-Ends wp (arrivals total) c fits),
      )
      | inr h ↦ (
        [],
        λ k h1 h2. absurd (omega (arith, ltb→le 1 total h)),
        rw h (
          c,
          refl,
          record { within = λ id w. w; held = λ id e. e; found = λ id k e same w. absurd cc },
        ),
      )
    ]

    -- What was written for the first page and the others is all that the source has.
    all_found :
        (ks : List ℕ) (c c1 c' : C)
        → ((id : Bytes) → find id c ≡ none)
        → ((id : Bytes) → find id c1 ≡ or_else (lookup id (ups (page_at 0))) (find id c))
        → AllArrive (total_pages (length docs) page_size) ks
        → Advanced ks c1 c'
        → (id : Bytes) → find id c' ≡ lookup id (ups docs)
    all_found ks c c1 c' empty e all a id = elim (Option-cases (lookup id (ups docs))) [
      | inl missing ↦ elim (on_page 0) [
        | inl nothing ↦ first (nothing ∙ sym missing)
        | inr same ↦ first same
      ]
      | inr (d, there) ↦
          let (k, h, at) =
            located unmarshal id_of bulk_write find writes docs distinct page_size positive
              (length docs) id d docs (omega arith) there in
          by_page k h (at ∙ sym there)
    ]
      where
        on_page : (k : ℕ) → Within (lookup id (ups docs)) (lookup id (ups (page_at k)))
        on_page k =
            page-Within unmarshal id_of bulk_write find writes docs distinct page_size positive k id

        first :
            lookup id (ups (page_at 0)) ≡ lookup id (ups docs) → find id c' ≡ lookup id (ups docs)
        first same = a.held id (
            e id
            ∙ or_else-found (lookup id (ups docs)) (lookup id (ups (page_at 0))) (find id c) same
                (inl (empty id)))

        within1 : Within (lookup id (ups docs)) (find id c1)
        within1 =
            subst (λ o. Within (lookup id (ups docs)) o) (sym (e id))
              (or_else-Within (lookup id (ups docs)) (lookup id (ups (page_at 0))) (find id c)
                (on_page 0) (inl (empty id)))

        by_page :
            (k : ℕ)
            → k * page_size < length docs
            → lookup id (ups (page_at k)) ≡ lookup id (ups docs)
            → find id c' ≡ lookup id (ups docs)
        by_page zero h same = first same
        by_page (suc k) h same =
            a.found id (suc k)
              (all (suc k) (omega arith) (before_end (length docs) page_size (suc k) positive h))
              same within1

    empty_source : (id : Bytes) → (length (page_at 0) == 0) ≡ true → lookup id (ups docs) ≡ none
    empty_source id h = no_upserts docs id (
        (==_iff (length docs) 0).1 (
          omega (
            arith,
            (==_iff (length (page_at 0)) 0).0 h,
            length-take page_size (drop (0 * page_size) docs),
            length-drop (0 * page_size) docs,
          )))

    -- A copy succeeds and the target then holds, by their ids, the documents of the source and no others,
    -- in whatever order the pages after the first come in: the other side answers each page and the count
    -- of a source that does not change, whose ids are distinct; dropping leaves the target empty; bulk
    -- writes succeed; and each page alone fits in the memory that is left.
    pub sync_collection_data-copies :
        (wp : WorkerPool) (c c0 : C)
        → cloud_count ≡ some (length docs)
        → drop_collection c ≡ some c0
        → ((id : Bytes) → find id c0 ≡ none)
        → AllArrive
            (total_pages (length docs) page_size)
            (arrivals (total_pages (length docs) page_size))
        → ((k : ℕ) → can_allocate_memory (estimate_memory_usage (page_at k)) wp ≡ true)
        → (c' : C) × (sync_collection_data unmarshal id_of bulk_write drop_collection fetch
              cloud_count arrivals wp page_size c
            ≡ synced c')
          × ((id : Bytes) → find id c' ≡ lookup id (ups docs))
    unfolding sync_collection_data Ends
    sync_collection_data-copies wp c c0 counted emptied empty all fits =
        rw (emptied, answers 0)
          (elim (Bool-cases (length (page_at 0) == 0)) [
            | inl h ↦ (c0, rw h refl, λ id. empty id ∙ sym (empty_source id h))
            | inr h ↦
                let (c1, e1, held) =
                  insert_documents_batch-Holding unmarshal id_of bulk_write find writes (page_at 0)
                    c0
                    (page-IsMap unmarshal id_of bulk_write find writes docs distinct page_size
                      positive 0) in
                let (ks, all', ends) =
                  remaining_pages-Ends wp (total_pages (length docs) page_size) c1 fits all in
                let (c', e', a) = ends in
                (
                  c',
                  rw h (
                      ap
                        (λ o. or_failed o (λ count.
                          or_failed
                            (insert_documents_batch unmarshal id_of bulk_write (page_at 0) c0)
                            (rest wp (total_pages count page_size))))
                        counted
                      ∙ (ap (λ o. or_failed o (rest wp (total_pages (length docs) page_size))) e1
                          ∙ e')),
                  all_found ks c0 c1 c' empty held all' a,
                )
          ])
