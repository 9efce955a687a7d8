-- ===== src/VmSync/Events/Mapping.antt =====
-- cmd/vm-sync/main.go: which target a configured collection names.
use go_mongo_sync.Prelude.{ℕ, ◌≡◌, refl, ap, ◌∙◌, true, false, some, List, [], ◌∷◌, ◌++◌, ◌==◌, All}
use go_mongo_sync.Prelude.Bytes.{Bytes, bytes_eq_refl}
use go_mongo_sync.Resume.Tokens.{collection_key}
use go_mongo_sync.VmSync.Events.{split, find_target}

-- A text without a character.
abbrev Without : ℕ → Bytes → Type 0
Without sep s = All (λ c. (c == sep) ≡ false) s

split-plain : (sep : ℕ) (s : Bytes) → Without sep s → split sep s ≡ s ∷ []
unfolding split
split-plain sep [] h = refl
split-plain sep (c ∷ s) h = rw (h.0, split-plain sep s h.1) refl

split-append :
    (sep : ℕ) (s rest : Bytes)
    → Without sep s
    → (sep == sep) ≡ true
    → split sep (s ++ (sep ∷ rest)) ≡ s ∷ split sep rest
unfolding split
split-append sep [] rest h e = rw e refl
split-append sep (c ∷ s) rest h e = rw (h.0, split-append sep s rest h.1 e) refl

split-dot :
    (to into : Bytes)
    → Without 46 to
    → Without 46 into
    → split 46 (collection_key to into) ≡ to ∷ into ∷ []
unfolding collection_key
split-dot to into h h' =
    split-append 46 to into h refl ∙ ap (λ ps. to ∷ ps) (split-plain 46 into h')

-- A collection that is configured first, as `database.collection:to.into` without a further colon and
-- without a dot in `to` or `into`, has its changes applied to the collection `into` of the database
-- `to`.
find_target-configured :
    (database collection to into : Bytes) (colls : List Bytes)
    → Without 46 to
    → Without 46 into
    → Without 58 (collection_key database collection)
    → Without 58 (collection_key to into)
    → find_target database collection
        ((collection_key database collection ++ (58 ∷ collection_key to into)) ∷ colls)
      ≡ some (to, into)
unfolding find_target collection_key
find_target-configured database collection to into colls h h' h1 h2 =
    rw (parts, bytes_eq_refl (collection_key database collection)) (rw target refl)
  where
    parts :
        split 58 (collection_key database collection ++ (58 ∷ collection_key to into))
        ≡ collection_key database collection ∷ collection_key to into ∷ []
    parts =
        split-append 58 (collection_key database collection) (collection_key to into) h1 refl
        ∙ ap (λ ps. collection_key database collection ∷ ps)
            (split-plain 58 (collection_key to into) h2)

    target : split 46 (collection_key to into) ≡ to ∷ into ∷ []
    target = split-dot to into h h'
