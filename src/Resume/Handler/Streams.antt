-- ===== src/Resume/Handler/Streams.antt =====
-- pkg/resume/buffer_free_handler.go: which clients and which streams an event reaches.
use go_mongo_sync.Prelude.{
  ℕ, ◌≡◌, refl, ◌∙◌, true, false, Option-cases, inl, inr, Option, none, some,
}
use go_mongo_sync.Prelude.Bytes.{Bytes, bytes_eq, bytes_eq_refl}
use go_mongo_sync.Prelude.Maps.{lookup, lookup-remove, lookup-assign_self}
use go_mongo_sync.Prelude.Text.{codes}
use go_mongo_sync.Models.{ChangeEvent}
use go_mongo_sync.Resume.Tokens.{collection_key}
use go_mongo_sync.Resume.Handler.{
  Handler, ChangeStreamState, tracked_clients, send_event, process_change_event,
  stop_collection_watch, begin_run, on_event, started_stream,
}
use go_mongo_sync.Resume.Handler.Tokens.{lookup-update_clients_other}

-- An event, whether decoded or not and whether or not its stream is known, changes nothing of a
-- client other than `example-client-1` and `example-client-2`, registered though it may be.
on_event-untracked :
    (key : Bytes) (event : Option ChangeEvent) (now : ℕ) (h : Handler) (id : Bytes)
    → bytes_eq id (codes "example-client-1") ≡ false
    → bytes_eq id (codes "example-client-2") ≡ false
    → lookup id (on_event key event now h).token_manager.client_tokens
      ≡ lookup id h.token_manager.client_tokens
unfolding on_event process_change_event send_event
on_event-untracked key none now h id e1 e2 = refl
on_event-untracked key (some event) now h id e1 e2 =
    elim (Option-cases (lookup key h.active_streams)) [
      | inl e ↦ rw (e, on_event) refl
      | inr (s, e) ↦
          rw (e, on_event)
            (lookup-update_clients_other tracked_clients id event.database event.collection
              event.resume_token event.timestamp now h.token_manager (e1, (e2, tt)))
    ]

stop-lookup :
    (database collection : Bytes) (h : Handler)
    → lookup
        (collection_key database collection)
        (stop_collection_watch database collection h).active_streams
      ≡ none
unfolding stop_collection_watch
stop-lookup database collection h =
    elim (Option-cases (lookup (collection_key database collection) h.active_streams)) [
      | inl e ↦ rw (e, stop_collection_watch) e
      | inr (s, e) ↦
          rw (e, stop_collection_watch)
            (lookup-remove (collection_key database collection) (collection_key database collection)
                h.active_streams
              ∙ rw (bytes_eq_refl (collection_key database collection)) refl)
    ]

skipped :
    (key : Bytes) (event : Option ChangeEvent) (now : ℕ) (h : Handler)
    → lookup key h.active_streams ≡ none
    → on_event key event now h ≡ h
unfolding on_event
skipped key none now h e = refl
skipped key (some event) now h e = rw (e, on_event) refl

-- After a collection's watch is stopped every event of its stream is skipped; but the next run of its
-- loop registers the stream again, as active.
on_event-stop_collection_watch :
    (database collection : Bytes) (event : Option ChangeEvent) (now later : ℕ) (h : Handler)
    → let stopped = stop_collection_watch database collection h in
      let key = collection_key database collection in
      (on_event key event now stopped ≡ stopped)
      × ((s : ChangeStreamState) × (lookup key
              (begin_run database collection later stopped).1.active_streams
            ≡ some s)
          × (s.is_active ≡ true))
unfolding begin_run
on_event-stop_collection_watch database collection event now later h = (
  skipped (collection_key database collection) event now
      (stop_collection_watch database collection h) (stop-lookup database collection h),
  (
    started_stream database collection later,
    lookup-assign_self (collection_key database collection)
        (started_stream database collection later)
        (stop_collection_watch database collection h).active_streams,
    refl,
  ),
)
