-- ===== src/VmSync/Events/Replica.antt =====
-- cmd/vm-sync/main.go: the target follows the source whose changes it is sent.
use go_mongo_sync.Prelude.{
  ℕ, ◌<◌, ◌≡◌, refl, sym, ap, ◌∙◌, Bool, true, false, Option, none, some, List, [], ◌∷◌, length,
  ◌==◌, if◌then◌else◌, arith,
}
use go_mongo_sync.Prelude.Bytes.{Bytes, bytes_eq}
use go_mongo_sync.Prelude.Maps.{lookup, assign, remove, lookup-assign, lookup-remove}
use go_mongo_sync.Prelude.Text.{codes}
use go_mongo_sync.Models.{ChangeEvent}
use go_mongo_sync.VmSync.Events.{
  Target, Client, processed_event, find_target, insert_event, replace_event, delete_event,
  apply_event, process_event, process_events,
}

-- A change of the source, by the id of a document.
pub data Change {ℓ} (D : Type ℓ) : Type ℓ where
  inserted updated : Bytes → D → Change D
  deleted : Bytes → Change D

abbrev pub changed {ℓ} : {D : Type ℓ} → Change D → List (Bytes × D) → List (Bytes × D)
changed (inserted id d) src = assign id d src
changed (updated id d) src = assign id d src
changed (deleted id) src = remove id src

-- A change that can happen to a source: only what is absent is inserted, what is there updated.
abbrev pub Happens {ℓ} : {D : Type ℓ} → Change D → List (Bytes × D) → Type ℓ
Happens (inserted id d) src = lookup id src ≡ none
Happens {D = D} (updated id d) src = (old : D) × (lookup id src ≡ some old)
Happens (deleted id) src = Unit

abbrev pub changed_all {ℓ} : {D : Type ℓ} → List (Change D) → List (Bytes × D) → List (Bytes × D)
changed_all [] src = src
changed_all (c ∷ cs) src = changed_all cs (changed c src)

-- The operations of a database, by what they leave to be found under an id.
pub record Documented {ℓ κ} {D : Type ℓ} {DB : Type κ} (id_of : D → Option Bytes)
    (driver : Target D DB) (find : Bytes × Bytes → Bytes → DB → Option D) : Type (ℓ ⊔ κ) where
  pub inserts :
      (to : Bytes × Bytes) (id : Bytes) (d : D) (db : DB)
      → id_of d ≡ some id
      → find to id db ≡ none
      → (db' : DB) × (driver.insert_one to.0 to.1 d db ≡ (true, db'))
        × ((k : Bytes) → find to k db' ≡ (if bytes_eq k id then some d else find to k db))
  pub replaces :
      (to : Bytes × Bytes) (id : Bytes) (key d old : D) (db : DB)
      → id_of key ≡ some id
      → id_of d ≡ some id
      → find to id db ≡ some old
      → (db' : DB) × (driver.replace_one to.0 to.1 key d db ≡ (true, db'))
        × ((k : Bytes) → find to k db' ≡ (if bytes_eq k id then some d else find to k db))
  pub deletes :
      (to : Bytes × Bytes) (id : Bytes) (key : D) (db : DB)
      → id_of key ≡ some id
      → (db' : DB) × (driver.delete_one to.0 to.1 key db ≡ (true, db'))
        × ((k : Bytes) → find to k db' ≡ (if bytes_eq k id then none else find to k db))

module _ {ℓ κ} {D : Type ℓ} {DB : Type κ} (unmarshal : Bytes → Option D) (id_of : D → Option Bytes)
    (driver : Target D DB) (collections : List Bytes) (find : Bytes × Bytes → Bytes → DB → Option D)
    (to : Bytes × Bytes) where
  -- What an event holds of a change.
  abbrev pub HoldsKey : ChangeEvent → Bytes → Type ℓ
  HoldsKey e id =
      (key : D) × (0 < length e.document_key)
      × (unmarshal e.document_key ≡ some key)
      × (id_of key ≡ some id)

  abbrev pub HoldsDocument : ChangeEvent → D → Type ℓ
  HoldsDocument e d = (0 < length e.full_document) × (unmarshal e.full_document ≡ some d)

  abbrev pub Encodes : ChangeEvent → Change D → Type ℓ
  Encodes e (inserted id d) =
      (e.operation_type ≡ codes "insert") × HoldsDocument e d × (id_of d ≡ some id)
  Encodes e (updated id d) =
      (e.operation_type ≡ codes "update") × HoldsDocument e d × HoldsKey e id × (id_of d ≡ some id)
  Encodes e (deleted id) = (e.operation_type ≡ codes "delete") × HoldsKey e id

  -- Events of the configured collection, in order, for the changes of a source.
  abbrev pub Feeds : List (ℕ × ChangeEvent) → List (Change D) → List (Bytes × D) → Type ℓ
  Feeds [] [] src = Unit
  Feeds [] (c ∷ cs) src = ⊥ × Unit {ℓ}
  Feeds ((now, e) ∷ es) [] src = ⊥ × Unit {ℓ}
  Feeds ((now, e) ∷ es) (c ∷ cs) src =
      (find_target e.database e.collection collections ≡ some to)
      × Encodes e c
      × Happens c src
      × Feeds es cs (changed c src)

  abbrev pub Follows : DB → List (Bytes × D) → Type ℓ
  Follows db src = (id : Bytes) → find to id db ≡ lookup id src

  -- An applied change: the target is found to hold what the changed source does.
  Done : Bool × DB → List (Bytes × D) → Type (ℓ ⊔ κ)
  Done r src = (db : DB) × (r ≡ (true, db)) × Follows db src

  nonempty : (n : ℕ) → 0 < n → (n == 0) ≡ false
  nonempty n h = ground arith

  assigned :
      (id : Bytes) (d : D) (src : List (Bytes × D)) (db db' : DB)
      → Follows db src
      → ((k : Bytes) → find to k db' ≡ (if bytes_eq k id then some d else find to k db))
      → Follows db' (assign id d src)
  assigned id d src db db' f e k =
      e k ∙ (ap (λ o. if bytes_eq k id then some d else o) (f k) ∙ sym (lookup-assign k id d src))

  removed :
      (id : Bytes) (src : List (Bytes × D)) (db db' : DB)
      → Follows db src
      → ((k : Bytes) → find to k db' ≡ (if bytes_eq k id then none else find to k db))
      → Follows db' (remove id src)
  removed id src db db' f e k =
      e k ∙ (ap (λ o. if bytes_eq k id then none else o) (f k) ∙ sym (lookup-remove k id src))

  module _ (documented : Documented id_of driver find) where
    apply_event-Done :
        (e : ChangeEvent) (c : Change D) (src : List (Bytes × D)) (db : DB)
        → Encodes e c
        → Happens c src
        → Follows db src
        → Done (apply_event unmarshal driver collections to e db) (changed c src)
    unfolding apply_event insert_event replace_event delete_event Done
    apply_event-Done e (inserted id d) src db (op, (full, decoded), keyed) absent f =
        let (db', wrote, finds) = documented.inserts to id d db keyed (f id ∙ absent) in
        (
          db',
          rw (op, nonempty (length e.full_document) full, decoded, wrote) refl,
          assigned id d src db db' f finds,
        )
    apply_event-Done e (updated id d) src db (op, (full, decoded), (key, held, found, keyed), same)
          (old, there) f =
        let (db', wrote, finds) =
          documented.replaces to id key d old db keyed same (f id ∙ there) in
        (
          db',
          rw
              (
                op,
                nonempty (length e.document_key) held,
                nonempty (length e.full_document) full,
                found,
                decoded,
                wrote,
              )
              refl,
          assigned id d src db db' f finds,
        )
    apply_event-Done e (deleted id) src db (op, (key, held, found, keyed)) happens f =
        let (db', wrote, finds) = documented.deletes to id key db keyed in
        (
          db',
          rw (op, nonempty (length e.document_key) held, found, wrote) refl,
          removed id src db db' f finds,
        )

    process_event-Done :
        (now : ℕ) (e : ChangeEvent) (c : Change D) (src : List (Bytes × D)) (s : Client DB)
        → find_target e.database e.collection collections ≡ some to
        → Encodes e c
        → Happens c src
        → Follows s.target src
        → Follows ((process_event unmarshal driver collections e now s).1).target (changed c src)
    unfolding process_event Done processed_event
    process_event-Done now e c src s found encodes happens f =
        let (db, applied, follows) = apply_event-Done e c src s.target encodes happens f in
        rw (found, applied) follows

    -- When the events of the configured collection hold, in their order, the insertions, updates and
    -- deletions of a source, and the target holds under each id what the source held before them, then
    -- after the events the target holds under each id what the source holds after the changes.
    pub process_events-Follows :
        (es : List (ℕ × ChangeEvent)) (cs : List (Change D)) (src : List (Bytes × D))
        (s : Client DB)
        → Feeds es cs src
        → Follows s.target src
        → Follows (process_events unmarshal driver collections es s).target (changed_all cs src)
    unfolding process_events
    process_events-Follows [] [] src s feeds f = f
    process_events-Follows [] (c ∷ cs) src s (impossible, u) f = absurd impossible
    process_events-Follows ((now, e) ∷ es) [] src s (impossible, u) f = absurd impossible
    process_events-Follows ((now, e) ∷ es) (c ∷ cs) src s (found, encodes, happens, feeds) f =
        process_events-Follows es cs (changed c src)
          (process_event unmarshal driver collections e now s).1 feeds
          (process_event-Done now e c src s found encodes happens f)
