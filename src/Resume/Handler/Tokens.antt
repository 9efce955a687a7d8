-- ===== src/Resume/Handler/Tokens.antt =====
-- pkg/resume/buffer_free_handler.go: which tokens the streams record, and which they resume after.
use go_mongo_sync.Prelude.{
  ℕ, ◌<◌, ◌≡◌, refl, sym, ap, ap₂, ◌∙◌, Bool, true, false, Bool-cases, Option-cases, inl, inr,
  Option, none, some, List, [], ◌∷◌, ◌++◌, length, All, ltb, ◌==◌, if◌then◌else◌, arith,
}
use go_mongo_sync.Prelude.Bytes.{Bytes, bytes_eq, bytes_eq→eq}
use go_mongo_sync.Prelude.Maps.{lookup, assign, lookup-assign, lookup-assign_self}
use go_mongo_sync.Prelude.Result.{Result, ok, err}
use go_mongo_sync.Prelude.Text.{codes}
use go_mongo_sync.Models.{ChangeEvent}
use go_mongo_sync.Resume.Tokens.{
  TokenManager, TokenError, ClientResumeState, CollectionTokenState, collection_key,
  update_client_token, get_client_resume_token, updated_client, token_of, token_state_or_new,
  updated_token, not_registered,
}
use go_mongo_sync.Resume.Handler.{
  Handler, tracked_clients, update_clients, usable, or_rest, first_token, get_latest_resume_token,
  clear_resume_tokens, send_event, process_change_event,
}

-- What a client gets for a collection, from what the manager knows of the client.
abbrev token_from : Bytes → Option ClientResumeState → Result TokenError Bytes
token_from key none = err not_registered
token_from key (some c) = ok (token_of (lookup key c.collection_tokens))

get_from :
    (id database collection : Bytes) (tm : TokenManager)
    → get_client_resume_token id database collection tm
      ≡ token_from (collection_key database collection) (lookup id tm.client_tokens)
unfolding get_client_resume_token
get_from id database collection tm = elim (Option-cases (lookup id tm.client_tokens)) [
  | inl e ↦ rw (e, get_client_resume_token) refl
  | inr (c, e) ↦ rw (e, get_client_resume_token) refl
]

abbrev changed_if :
    Bool
    → (ClientResumeState → ClientResumeState)
    → Option ClientResumeState
    → Option ClientResumeState
changed_if b f none = none
changed_if b f (some c) = some (if b then f c else c)

changed_not :
    (f : ClientResumeState → ClientResumeState) (o : Option ClientResumeState)
    → o ≡ changed_if false f o
changed_not f none = refl
changed_not f (some c) = refl

lookup-update_client_token :
    (id id' database collection token : Bytes) (event_time now : ℕ) (tm : TokenManager)
    → lookup id
        (update_client_token id' database collection token event_time now tm).1.client_tokens
      ≡ changed_if
          (bytes_eq id id')
          (updated_client database collection token event_time now)
          (lookup id tm.client_tokens)
unfolding update_client_token
lookup-update_client_token id id' database collection token event_time now tm =
    elim (Option-cases (lookup id' tm.client_tokens)) [
      | inl e ↦
          rw (e, update_client_token)
            (elim (Bool-cases (bytes_eq id id')) [
              | inl h ↦ rw (ap (λ x. lookup x tm.client_tokens) (bytes_eq→eq id id' h) ∙ e) refl
              | inr h ↦ rw h (
                  changed_not (updated_client database collection token event_time now)
                    (lookup id tm.client_tokens))
            ])
      | inr (c, e) ↦
          rw (e, update_client_token)
            (lookup-assign id id' (updated_client database collection token event_time now c)
                tm.client_tokens
              ∙ elim (Bool-cases (bytes_eq id id')) [
                | inl h ↦
                    rw (h, ap (λ x. lookup x tm.client_tokens) (bytes_eq→eq id id' h) ∙ e) refl
                | inr h ↦ rw h (
                    changed_not (updated_client database collection token event_time now)
                      (lookup id tm.client_tokens))
              ])
    ]

-- Clearing ----------------------------------------------------------------

token_of-kept :
    (database collection : Bytes) (event_time now : ℕ) (o : Option CollectionTokenState)
    → token_of (some (updated_token [] event_time now (token_state_or_new database collection o)))
      ≡ token_of o
token_of-kept database collection event_time now none = refl
token_of-kept database collection event_time now (some t) = refl

token_of-assign :
    (key k : Bytes) (t : CollectionTokenState) (m : List (Bytes × CollectionTokenState))
    → token_of (some t) ≡ token_of (lookup k m)
    → token_of (lookup key (assign k t m)) ≡ token_of (lookup key m)
token_of-assign key k t m h = elim (Bool-cases (bytes_eq key k)) [
  | inl e ↦ rw (lookup-assign key k t m, e, ap (λ x. lookup x m) (bytes_eq→eq key k e)) h
  | inr e ↦ rw (lookup-assign key k t m, e) refl
]

token_from-cleared :
    (b : Bool) (key database collection : Bytes) (event_time now : ℕ) (o : Option ClientResumeState)
    → token_from key (changed_if b (updated_client database collection [] event_time now) o)
      ≡ token_from key o
token_from-cleared b key database collection event_time now none = refl
token_from-cleared true key database collection event_time now (some c) =
    let k = collection_key database collection in
    ap ok (
      token_of-assign key k
        (updated_token [] event_time now
          (token_state_or_new database collection (lookup k c.collection_tokens)))
        c.collection_tokens
        (token_of-kept database collection event_time now (lookup k c.collection_tokens)))
token_from-cleared false key database collection event_time now (some c) = refl

get-cleared :
    (ids : List Bytes) (id database collection database' collection' : Bytes) (event_time now : ℕ)
    (tm : TokenManager)
    → get_client_resume_token id database collection
        (update_clients ids database' collection' [] event_time now tm)
      ≡ get_client_resume_token id database collection tm
unfolding update_clients
get-cleared [] id database collection database' collection' event_time now tm = refl
get-cleared (id' ∷ ids) id database collection database' collection' event_time now tm =
    get-cleared ids id database collection database' collection' event_time now
      (update_client_token id' database' collection' [] event_time now tm).1
    ∙ (get_from id database collection
          (update_client_token id' database' collection' [] event_time now tm).1
        ∙ (ap (token_from (collection_key database collection))
              (lookup-update_client_token id id' database' collection' [] event_time now tm)
            ∙ (token_from-cleared (bytes_eq id id') (collection_key database collection) database'
                  collection' event_time now (lookup id tm.client_tokens)
                ∙ sym (get_from id database collection tm))))

first_token-same :
    (ids : List Bytes) (database collection : Bytes) (tm tm' : TokenManager)
    → ((id : Bytes)
        → get_client_resume_token id database collection tm'
          ≡ get_client_resume_token id database collection tm)
    → first_token ids database collection tm' ≡ first_token ids database collection tm
unfolding first_token
first_token-same [] database collection tm tm' h = refl
first_token-same (id ∷ ids) database collection tm tm' h =
    ap₂ (λ r rest. or_rest (usable r) rest) (h id)
      (first_token-same ids database collection tm tm' h)

-- Clearing the tokens of a collection changes none of them: a stream that is run again after the
-- error of an unusable token resumes after the same token, for every collection and manager.
pub get_latest-clear_resume_tokens :
    (database collection database' collection' : Bytes) (now : ℕ) (tm : TokenManager)
    → get_latest_resume_token database collection (clear_resume_tokens database' collection' now tm)
      ≡ get_latest_resume_token database collection tm
unfolding get_latest_resume_token clear_resume_tokens
get_latest-clear_resume_tokens database collection database' collection' now tm =
    first_token-same tracked_clients database collection tm
      (update_clients tracked_clients database' collection' [] now now tm)
      (λ id. get-cleared tracked_clients id database collection database' collection' now now tm)

-- Recording ---------------------------------------------------------------

-- A client that is in no list of clients to update keeps its state.
pub lookup-update_clients_other :
    (ids : List Bytes) (id database collection token : Bytes) (event_time now : ℕ)
    (tm : TokenManager)
    → All (λ id'. bytes_eq id id' ≡ false) ids
    → lookup id (update_clients ids database collection token event_time now tm).client_tokens
      ≡ lookup id tm.client_tokens
unfolding update_clients
lookup-update_clients_other [] id database collection token event_time now tm h = refl
lookup-update_clients_other (id' ∷ ids) id database collection token event_time now tm h =
    lookup-update_clients_other ids id database collection token event_time now
      (update_client_token id' database collection token event_time now tm).1 h.1
    ∙ (lookup-update_client_token id id' database collection token event_time now tm
        ∙ rw h.0 (
            sym (
              changed_not (updated_client database collection token event_time now)
                (lookup id tm.client_tokens))))

token_from-updated :
    (database collection token : Bytes) (event_time now : ℕ) (o : Option ClientResumeState)
    (c : ClientResumeState)
    → o ≡ some c
    → (length token == 0) ≡ false
    → token_from
        (collection_key database collection)
        (changed_if true (updated_client database collection token event_time now) o)
      ≡ ok token
token_from-updated database collection token event_time now o c e h = rw e (
    ap (λ p. ok (token_of p))
      (lookup-assign_self key
        (updated_token token event_time now
          (token_state_or_new database collection (lookup key c.collection_tokens)))
        c.collection_tokens)
    ∙ rw h refl)
  where
    key : Bytes
    key = collection_key database collection

-- Where the first client tracked is registered, an event's token is what the next run resumes after,
-- whether or not the channel takes the event; the channel takes it exactly when it is not full.
pub process_change_event_resumes :
    (event : ChangeEvent) (now : ℕ) (h : Handler) (c : ClientResumeState)
    → lookup (codes "example-client-1") h.token_manager.client_tokens ≡ some c
    → 0 < length event.resume_token
    → (get_latest_resume_token event.database event.collection
          (process_change_event event now h).token_manager
        ≡ event.resume_token)
      × ((process_change_event event now h).event_channel ≡ (
          if ltb (length h.event_channel) h.capacity
          then h.event_channel ++ (event ∷ [])
          else h.event_channel))
unfolding process_change_event send_event get_latest_resume_token first_token update_clients
process_change_event_resumes event now h c e nonempty = (
  ap
      (λ o.
        or_rest o (first_token (codes "example-client-2" ∷ []) event.database event.collection tm2))
      (ap usable found ∙ usable-token),
  refl,
)
  where
    token : Bytes
    token = event.resume_token

    nonempty' : (length token == 0) ≡ false
    nonempty' = ground (arith, nonempty)

    tm1 : TokenManager
    tm1 =
        (update_client_token (codes "example-client-1") event.database event.collection token
          event.timestamp now h.token_manager).1

    tm2 : TokenManager
    tm2 =
        (update_client_token (codes "example-client-2") event.database event.collection token
          event.timestamp now tm1).1

    found :
        get_client_resume_token (codes "example-client-1") event.database event.collection tm2
        ≡ ok token
    found =
        get_from (codes "example-client-1") event.database event.collection tm2
        ∙ (ap (token_from (collection_key event.database event.collection)) (
              lookup-update_client_token (codes "example-client-1") (codes "example-client-2")
                event.database event.collection token event.timestamp now tm1
              ∙ (sym (
                    changed_not
                      (updated_client event.database event.collection token event.timestamp now)
                      (lookup (codes "example-client-1") tm1.client_tokens))
                  ∙ lookup-update_client_token (codes "example-client-1") (codes "example-client-1")
                      event.database event.collection token event.timestamp now h.token_manager))
            ∙ token_from-updated event.database event.collection token event.timestamp now
                (lookup (codes "example-client-1") h.token_manager.client_tokens) c e nonempty')

    usable-token : usable (ok token) ≡ some token
    usable-token = rw nonempty' refl
