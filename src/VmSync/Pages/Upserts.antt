-- ===== src/VmSync/Pages/Upserts.antt =====
-- cmd/vm-sync/main.go: what the batches of `insertDocumentsBatch` leave in a collection.
use go_mongo_sync.Prelude.{
  ℕ, zero, suc, ◌≤◌, ◌<◌, ◌≡◌, refl, sym, ap, ◌∙◌, subst, false, Bool-cases, inl, inr, ◌⊎◌, Option,
  none, some, List, [], ◌∷◌, ◌++◌, length, length-drop, take, drop, take-append-drop, ◌==◌, arith,
}
use go_mongo_sync.Prelude.Bytes.{Bytes, bytes_eq, bytes_eq→eq}
use go_mongo_sync.Prelude.Maps.{lookup, or_else, IsMap}
use go_mongo_sync.Prelude.Steps.{bind}
use go_mongo_sync.VmSync.Pages.{
  upsert_of, cons_some, upserts, write_ops, insert_batches, insert_documents_batch,
}

module _ {ℓ} {V : Type ℓ} where
  pub lookup-append :
      (id : Bytes) (xs ys : List (Bytes × V))
      → lookup id (xs ++ ys) ≡ or_else (lookup id xs) (lookup id ys)
  unfolding lookup
  lookup-append id [] ys = refl
  lookup-append id ((k, v) ∷ xs) ys = elim (Bool-cases (bytes_eq id k)) [
    | inl e ↦ rw e refl
    | inr e ↦ rw e (lookup-append id xs ys)
  ]

  or_else-left : (o p : Option V) → or_else o p ≡ none → o ≡ none
  or_else-left none p h = refl
  or_else-left (some v) p h = absurd cc

  or_else-right : (o p : Option V) → or_else o p ≡ none → p ≡ none
  or_else-right none p h = h
  or_else-right (some v) p h = absurd cc

  pub IsMap-left : (xs ys : List (Bytes × V)) → IsMap (xs ++ ys) → IsMap xs
  unfolding IsMap
  IsMap-left [] ys h = tt
  IsMap-left ((k, v) ∷ xs) ys h = (
    or_else-left (lookup k xs) (lookup k ys) (sym (lookup-append k xs ys) ∙ h.0),
    IsMap-left xs ys h.1,
  )

  pub IsMap-right : (xs ys : List (Bytes × V)) → IsMap (xs ++ ys) → IsMap ys
  unfolding IsMap
  IsMap-right [] ys h = h
  IsMap-right ((k, v) ∷ xs) ys h = IsMap-right xs ys h.1

  -- In two parts of a map a key stands in one.
  pub IsMap-apart :
      (id : Bytes) (xs ys : List (Bytes × V))
      → IsMap (xs ++ ys)
      → (lookup id xs ≡ none) ⊎ (lookup id ys ≡ none)
  unfolding IsMap lookup
  IsMap-apart id [] ys h = inl refl
  IsMap-apart id ((k, v) ∷ xs) ys h = elim (Bool-cases (bytes_eq id k)) [
    | inl e ↦ inr (
        ap (λ x. lookup x ys) (bytes_eq→eq id k e)
        ∙ or_else-right (lookup k xs) (lookup k ys) (sym (lookup-append k xs ys) ∙ h.0))
    | inr e ↦ rw e (IsMap-apart id xs ys h.1)
  ]

  or_else-commutes :
      (o p f : Option V)
      → (o ≡ none) ⊎ (p ≡ none)
      → or_else p (or_else o f) ≡ or_else (or_else o p) f
  or_else-commutes none p f h = refl
  or_else-commutes (some v) none f h = refl
  or_else-commutes (some v) (some w) f (inl h) = absurd cc
  or_else-commutes (some v) (some w) f (inr h) = absurd cc

-- A bulk write of upserts with distinct ids succeeds, and afterwards a collection holds these
-- documents and, under other ids, what it held before.
abbrev pub Upserts {ℓ κ} :
    {D : Type ℓ} {C : Type κ}
    → (Bytes → C → Option D)
    → (List (Bytes × D) → C → Option C)
    → Type (ℓ ⊔ κ)
Upserts {D = D} {C = C} find bulk_write =
    (ops : List (Bytes × D)) (c : C)
    → IsMap ops
    → (c' : C) × (bulk_write ops c ≡ some c')
      × ((id : Bytes) → find id c' ≡ or_else (lookup id ops) (find id c))

module _ {ℓ κ} {D : Type ℓ} {C : Type κ} (unmarshal : Bytes → Option D) (id_of : D → Option Bytes)
    (bulk_write : List (Bytes × D) → C → Option C) (find : Bytes → C → Option D)
    (writes : Upserts find bulk_write) where
  cons_some-append :
      (o : Option (Bytes × D)) (xs ys : List (Bytes × D))
      → cons_some unmarshal id_of bulk_write o xs ++ ys
        ≡ cons_some unmarshal id_of bulk_write o (xs ++ ys)
  cons_some-append none xs ys = refl
  cons_some-append (some op) xs ys = refl

  pub upserts-append :
      (xs ys : List Bytes)
      → upserts unmarshal id_of bulk_write (xs ++ ys)
        ≡ upserts unmarshal id_of bulk_write xs ++ upserts unmarshal id_of bulk_write ys
  unfolding upserts
  upserts-append [] ys = refl
  upserts-append (raw ∷ xs) ys =
      ap (cons_some unmarshal id_of bulk_write (upsert_of unmarshal id_of bulk_write raw))
        (upserts-append xs ys)
      ∙ sym (
          cons_some-append (upsert_of unmarshal id_of bulk_write raw)
            (upserts unmarshal id_of bulk_write xs) (upserts unmarshal id_of bulk_write ys))

  -- After operations a collection holds what they upsert, and else what it held.
  abbrev pub Holding : List (Bytes × D) → C → Option C → Type (ℓ ⊔ κ)
  Holding ops c o =
      (c' : C) × (o ≡ some c') × ((id : Bytes) → find id c' ≡ or_else (lookup id ops) (find id c))

  write_ops-Holding :
      (ops : List (Bytes × D)) (c : C)
      → IsMap ops
      → Holding ops c (write_ops unmarshal id_of bulk_write ops c)
  unfolding lookup
  write_ops-Holding [] c h = (c, refl, λ id. refl)
  write_ops-Holding (op ∷ ops) c h = writes (op ∷ ops) c h

  bind-Holding :
      (xs ys : List (Bytes × D)) (c : C) (o : Option C) (f : C → Option C)
      → IsMap (xs ++ ys)
      → Holding xs c o
      → ((c1 : C) → Holding ys c1 (f c1))
      → Holding (xs ++ ys) c (bind o f)
  bind-Holding xs ys c o f h (c1, e1, held1) g =
      let (c2, e2, held2) = g c1 in
      (
        c2,
        ap (λ p. bind p f) e1 ∙ e2,
        λ id.
            held2 id
            ∙ (ap (or_else (lookup id ys)) (held1 id)
                ∙ (or_else-commutes (lookup id xs) (lookup id ys) (find id c)
                      (IsMap-apart id xs ys h)
                    ∙ ap (λ p. or_else p (find id c)) (sym (lookup-append id xs ys)))),
      )

  insert_batches-Holding :
      (size fuel : ℕ) (docs : List Bytes) (c : C)
      → 0 < size
      → length docs ≤ fuel
      → IsMap (upserts unmarshal id_of bulk_write docs)
      → Holding
          (upserts unmarshal id_of bulk_write docs)
          c
          (insert_batches unmarshal id_of bulk_write size fuel docs c)
  unfolding insert_batches upserts lookup
  insert_batches-Holding size zero [] c s f h = (c, refl, λ id. refl)
  insert_batches-Holding size zero (raw ∷ docs) c s f h = absurd (omega arith)
  insert_batches-Holding size (suc fuel) [] c s f h = (c, refl, λ id. refl)
  insert_batches-Holding size (suc fuel) (raw ∷ docs) c s f h =
      subst
        (λ ops.
          Holding ops c (insert_batches unmarshal id_of bulk_write size (suc fuel) (raw ∷ docs) c))
        (sym split)
        (rw (nonempty (length docs)) (
          bind-Holding (ups (take size (raw ∷ docs))) (ups (drop size (raw ∷ docs))) c
            (write_ops unmarshal id_of bulk_write (ups (take size (raw ∷ docs))) c)
            (λ c'. insert_batches unmarshal id_of bulk_write size fuel (drop size (raw ∷ docs)) c')
            parts
            (write_ops-Holding (ups (take size (raw ∷ docs))) c
              (IsMap-left (ups (take size (raw ∷ docs))) (ups (drop size (raw ∷ docs))) parts))
            (λ c1.
              insert_batches-Holding size fuel (drop size (raw ∷ docs)) c1 s
                (omega (arith, length-drop size (raw ∷ docs)))
                (IsMap-right (ups (take size (raw ∷ docs))) (ups (drop size (raw ∷ docs))) parts))))
    where
      ups : List Bytes → List (Bytes × D)
      ups = upserts unmarshal id_of bulk_write

      nonempty : (n : ℕ) → (suc n == 0) ≡ false
      nonempty n = ground arith

      split : ups (raw ∷ docs) ≡ ups (take size (raw ∷ docs)) ++ ups (drop size (raw ∷ docs))
      split =
          ap ups (sym (take-append-drop size (raw ∷ docs)))
          ∙ upserts-append (take size (raw ∷ docs)) (drop size (raw ∷ docs))

      parts : IsMap (ups (take size (raw ∷ docs)) ++ ups (drop size (raw ∷ docs)))
      parts = subst (λ ops. IsMap ops) split h

  -- A batch of documents with distinct ids is inserted in full, whatever its length.
  pub insert_documents_batch-Holding :
      (docs : List Bytes) (c : C)
      → IsMap (upserts unmarshal id_of bulk_write docs)
      → Holding
          (upserts unmarshal id_of bulk_write docs)
          c
          (insert_documents_batch unmarshal id_of bulk_write docs c)
  unfolding insert_documents_batch
  insert_documents_batch-Holding docs c h =
      insert_batches-Holding 1000 (length docs) docs c (omega arith) (omega arith) h
