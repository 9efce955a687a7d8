-- ===== src/Resume/Tokens/Restart.antt =====
-- pkg/resume/token_manager.go: which tokens are found again, by a reconnecting client and after a
-- restart of the program.
use go_mongo_sync.Prelude.{ℕ, ◌<◌, ◌≡◌, refl, ap, ◌∙◌, true, false, some, [], length, ◌==◌, arith}
use go_mongo_sync.Prelude.Bytes.{Bytes}
use go_mongo_sync.Prelude.Maps.{
  lookup, assign, assign_all, IsMap, or_else, or_else-none, lookup-assign_self, lookup-assign_all,
  assign_all-IsMap, assign-IsMap,
}
use go_mongo_sync.Prelude.Result.{ok}
use go_mongo_sync.Resume.Tokens.{
  TokenManager, ClientResumeState, CollectionTokenState, collection_key, update_client_token,
  get_client_resume_token, persist_tokens, new_token_manager, updated_client, set_client, token_of,
  token_state_or_new, updated_token,
}

-- The maps of a manager and of the database hold a client once.
pub record IsValid (tm : TokenManager) : Type 0 where
  pub clients_once : IsMap tm.client_tokens
  pub stored_once : IsMap tm.stored

-- A manager started on what another one has persisted knows the clients of both.
restart-lookup :
    (tm : TokenManager) (id : Bytes)
    → IsValid tm
    → lookup id (new_token_manager true (persist_tokens tm).stored).client_tokens
      ≡ or_else (lookup id tm.client_tokens) (lookup id tm.stored)
unfolding new_token_manager persist_tokens lookup
restart-lookup tm id v =
    lookup-assign_all id (assign_all tm.client_tokens tm.stored) []
      (assign_all-IsMap tm.client_tokens tm.stored v.stored_once)
    ∙ (or_else-none (lookup id (assign_all tm.client_tokens tm.stored))
        ∙ lookup-assign_all id tm.client_tokens tm.stored v.clients_once)

update_client_token-registered :
    (tm : TokenManager) (id database collection token : Bytes) (event_time now : ℕ)
    (c : ClientResumeState)
    → lookup id tm.client_tokens ≡ some c
    → update_client_token id database collection token event_time now tm
      ≡ (true, set_client id (updated_client database collection token event_time now c) tm)
unfolding update_client_token
update_client_token-registered tm id database collection token event_time now c e =
    rw (e, update_client_token) refl

get_updated :
    (tm : TokenManager) (id database collection token : Bytes) (event_time now : ℕ)
    (c : ClientResumeState)
    → lookup id tm.client_tokens ≡ some (updated_client database collection token event_time now c)
    → (length token == 0) ≡ false
    → get_client_resume_token id database collection tm ≡ ok token
unfolding get_client_resume_token
get_updated tm id database collection token event_time now c e h =
    rw (e, get_client_resume_token)
      (ap (λ o. ok (token_of o)) (lookup-assign_self key t c.collection_tokens) ∙ rw h refl)
  where
    key : Bytes
    key = collection_key database collection

    t : CollectionTokenState
    t =
        updated_token token event_time now
          (token_state_or_new database collection (lookup key c.collection_tokens))

-- A token that is not empty and is recorded for a registered client is what the client gets when it
-- asks next, also from a manager that is started on what this one persists.
pub updated_token_resumes :
    (tm : TokenManager) (id database collection token : Bytes) (event_time now : ℕ)
    (c : ClientResumeState)
    → IsValid tm
    → lookup id tm.client_tokens ≡ some c
    → 0 < length token
    → let tm' = (update_client_token id database collection token event_time now tm).1 in
      (get_client_resume_token id database collection tm' ≡ ok token)
      × (get_client_resume_token id database collection
            (new_token_manager true (persist_tokens tm').stored)
          ≡ ok token)
updated_token_resumes tm id database collection token event_time now c v e h =
    rw (update_client_token-registered tm id database collection token event_time now c e) (
      get_updated tm' id database collection token event_time now c found nonempty,
      get_updated (new_token_manager true (persist_tokens tm').stored) id database collection token
          event_time now c
          (restart-lookup tm' id valid ∙ ap (λ o. or_else o (lookup id tm'.stored)) found) nonempty,
    )
  where
    c' : ClientResumeState
    c' = updated_client database collection token event_time now c

    tm' : TokenManager
    tm' = set_client id c' tm

    found : lookup id (assign id c' tm.client_tokens) ≡ some c'
    found = lookup-assign_self id c' tm.client_tokens

    nonempty : (length token == 0) ≡ false
    nonempty = ground (arith, h)

    valid : IsValid tm'
    valid = record {
      clients_once = assign-IsMap id c' tm.client_tokens v.clients_once;
      stored_once = v.stored_once;
    }
