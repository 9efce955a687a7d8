-- ===== src/VmSync/Events/Errors.antt =====
-- cmd/vm-sync/main.go: what becomes of a change event that cannot be applied.
use go_mongo_sync.Prelude.{
  ℕ, ◌<◌, ◌≡◌, refl, sym, ap, ◌∙◌, Bool, true, false, Option, none, some, List, [], ◌∷◌, length,
  ◌==◌, arith,
}
use go_mongo_sync.Prelude.Bytes.{Bytes}
use go_mongo_sync.Prelude.Maps.{lookup, lookup-assign_self}
use go_mongo_sync.Models.{ChangeEvent}
use go_mongo_sync.Resume.Tokens.{collection_key}
use go_mongo_sync.Resume.Checkpoints.{
  Checkpoint, Checkpoints, get_checkpoint, update_checkpoint, advanced, checkpoint_or_new,
}
use go_mongo_sync.VmSync.Events.{
  Target, Client, with_checkpoint, processed_event, find_target, apply_event, after_apply,
  process_for, process_event, process_events,
}

module _ {ℓ κ} {D : Type ℓ} {DB : Type κ} (unmarshal : Bytes → Option D) (driver : Target D DB)
    (collections : List Bytes) where
  after_apply-answer :
      (event : ChangeEvent) (now : ℕ) (s : Client DB) (r : Bool × DB)
      → (after_apply unmarshal driver collections event now s r).0 ≡ r.0
  after_apply-answer event now s (false, db) = refl
  after_apply-answer event now s (true, db) = refl

  after_apply-checkpoints :
      (event : ChangeEvent) (now : ℕ) (s : Client DB) (r : Bool × DB)
      → r.0 ≡ true
      → (after_apply unmarshal driver collections event now s r).1.checkpoints
        ≡ with_checkpoint event now s.checkpoints
  unfolding processed_event
  after_apply-checkpoints event now s (false, db) h = absurd cc
  after_apply-checkpoints event now s (true, db) h = refl

  -- What an error leaves: the target as the failed operation left it, and nothing else changed.
  after_apply-failed :
      (event : ChangeEvent) (now : ℕ) (s : Client DB) (r : Bool × DB)
      → (after_apply unmarshal driver collections event now s r).0 ≡ false
      → after_apply unmarshal driver collections event now s r ≡ (
        false,
        record s { target = (after_apply unmarshal driver collections event now s r).1.target },
      )
  after_apply-failed event now s (false, db) h = refl
  after_apply-failed event now s (true, db) h = absurd cc

  process_for-failed :
      (event : ChangeEvent) (now : ℕ) (s : Client DB) (o : Option (Bytes × Bytes))
      → (process_for unmarshal driver collections event now s o).0 ≡ false
      → process_for unmarshal driver collections event now s o ≡ (
        false,
        record s { target = (process_for unmarshal driver collections event now s o).1.target },
      )
  process_for-failed event now s none h = absurd cc
  process_for-failed event now s (some to) h =
      after_apply-failed event now s (apply_event unmarshal driver collections to event s.target) h

  process_for-checkpoints :
      (event : ChangeEvent) (now : ℕ) (s : Client DB) (o : Option (Bytes × Bytes))
      (to : Bytes × Bytes)
      → o ≡ some to
      → (process_for unmarshal driver collections event now s o).0 ≡ true
      → (process_for unmarshal driver collections event now s o).1.checkpoints
        ≡ with_checkpoint event now s.checkpoints
  process_for-checkpoints event now s none to e h = absurd cc
  process_for-checkpoints event now s (some to') to e h =
      after_apply-checkpoints event now s
        (apply_event unmarshal driver collections to' event s.target)
        (sym (
            after_apply-answer event now s
              (apply_event unmarshal driver collections to' event s.target))
          ∙ h)

  process_events-passes :
      (event : ChangeEvent) (now : ℕ) (events : List (ℕ × ChangeEvent)) (s : Client DB)
      → (process_event unmarshal driver collections event now s).0 ≡ false
      → process_events unmarshal driver collections ((now, event) ∷ events) s
        ≡ process_events unmarshal driver collections events (record s {
          target = (process_event unmarshal driver collections event now s).1.target;
        })
  unfolding process_events process_event
  process_events-passes event now events s failed =
      ap (λ r. process_events unmarshal driver collections events r.1)
        (process_for-failed event now s (find_target event.database event.collection collections)
          failed)

  process_events-checkpoints :
      (next : ChangeEvent) (later : ℕ) (s : Client DB) (cs : Checkpoints) (to : Bytes × Bytes)
      → s.checkpoints ≡ some cs
      → find_target next.database next.collection collections ≡ some to
      → 0 < length next.resume_token
      → (process_event unmarshal driver collections next later s).0 ≡ true
      → (process_events unmarshal driver collections ((later, next) ∷ []) s).checkpoints
        ≡ some (
            update_checkpoint next.database next.collection next.resume_token next.timestamp later
              cs)
  unfolding process_events process_event
  process_events-checkpoints next later s cs to kept configured nonempty succeeded =
      process_for-checkpoints next later s (find_target next.database next.collection collections)
        to configured succeeded
      ∙ (ap (with_checkpoint next later) kept ∙ rw nonempty' refl)
    where
      nonempty' : (length next.resume_token == 0) ≡ false
      nonempty' = ground (arith, nonempty)

  -- The token of an update that carries one is that of the checkpoint.
  get_checkpoint-update_checkpoint :
      (database collection token : Bytes) (event_time now : ℕ) (cs : Checkpoints)
      → 0 < length token
      → (c : Checkpoint) × (get_checkpoint database collection
            (update_checkpoint database collection token event_time now cs)
          ≡ some c)
        × (c.resume_token ≡ token)
  unfolding get_checkpoint update_checkpoint
  get_checkpoint-update_checkpoint database collection token event_time now cs nonempty = (
    advanced token event_time now (checkpoint_or_new database collection (lookup key cs)),
    lookup-assign_self key
        (advanced token event_time now (checkpoint_or_new database collection (lookup key cs))) cs,
    rw nonempty' refl,
  )
    where
      key : Bytes
      key = collection_key database collection

      nonempty' : (length token == 0) ≡ false
      nonempty' = ground (arith, nonempty)

  -- An event that fails leaves no trace but what its failed operation did to the target: the
  -- checkpoints, the watermarks and the acknowledgements stay, and it is not tried again. If the next
  -- event is configured, carries a token and succeeds on the target as it then is, the checkpoint of
  -- its collection stands at that event, behind the one that failed.
  pub process_events-failed :
      (event next : ChangeEvent) (now later : ℕ) (s : Client DB) (cs : Checkpoints)
      (to : Bytes × Bytes)
      → (process_event unmarshal driver collections event now s).0 ≡ false
      → s.checkpoints ≡ some cs
      → find_target next.database next.collection collections ≡ some to
      → 0 < length next.resume_token
      → (process_event unmarshal driver collections next later (record s {
        target = (process_event unmarshal driver collections event now s).1.target;
      })).0
        ≡ true
      → let s' =
          process_events unmarshal driver collections ((now, event) ∷ (later, next) ∷ []) s in
        let db = (process_event unmarshal driver collections event now s).1.target in
        (s'
          ≡ process_events unmarshal driver collections
              ((later, next) ∷ [])
              (record s { target = db }))
        × ((cs' : Checkpoints) × (c : Checkpoint) × (s'.checkpoints ≡ some cs')
            × (get_checkpoint next.database next.collection cs' ≡ some c)
            × (c.resume_token ≡ next.resume_token))
  process_events-failed event next now later s cs to failed kept configured nonempty succeeded =
      let db = (process_event unmarshal driver collections event now s).1.target in
      let passed = process_events-passes event now ((later, next) ∷ []) s failed in
      let stands =
        get_checkpoint-update_checkpoint next.database next.collection next.resume_token
          next.timestamp later cs nonempty in
      (
        passed,
        (
          update_checkpoint next.database next.collection next.resume_token next.timestamp later cs,
          stands.0,
          ap (λ r. r.checkpoints) passed
              ∙ process_events-checkpoints next later (record s { target = db }) cs to kept
                  configured nonempty succeeded,
          stands.1,
          stands.2,
        ),
      )
