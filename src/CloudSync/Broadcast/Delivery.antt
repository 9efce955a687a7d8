-- ===== src/CloudSync/Broadcast/Delivery.antt =====
-- cmd/cloud-sync/main.go: which clients a change event reaches.
use go_mongo_sync.Prelude.{
  ℕ, ◌≡◌, refl, sym, ap, ◌∙◌, Bool, true, false, ◌||◌, ◌&&◌, not, Bool-cases, inl, inr, Option,
  none, some, List, [], ◌∷◌, ◌++◌, append-nil, append_assoc, if◌then◌else◌,
}
use go_mongo_sync.Prelude.Bytes.{Bytes, bytes_eq, bytes_eq→eq}
use go_mongo_sync.Prelude.Maps.{lookup, IsMap, is_in, lookup-remove_all}
use go_mongo_sync.Models.{ChangeEvent}
use go_mongo_sync.Resume.Tokens.{TokenManager}
use go_mongo_sync.Resume.Handler.{update_clients}
use go_mongo_sync.CloudSync.Broadcast.{
  ClientInfo, Server, is_vm_sync, has_vm_sync_clients, vm_sync_ids, update_resume_tokens, write_all,
  change_message, broadcast_to_clients, with_tokens, handle_change_event,
}

none_updated :
    (clients : List (Bytes × ClientInfo))
    → has_vm_sync_clients clients ≡ false
    → vm_sync_ids clients ≡ []
unfolding has_vm_sync_clients vm_sync_ids
none_updated [] h = refl
none_updated ((conn, info) ∷ clients) h = elim (Bool-cases (is_vm_sync info)) [
  | inl e ↦ absurd (cc)
  | inr e ↦ rw e (none_updated clients (sym (rw e refl) ∙ h))
]

same_tokens :
    (event : ChangeEvent) (now : ℕ) (clients : List (Bytes × ClientInfo)) (tm : TokenManager)
    → has_vm_sync_clients clients ≡ false
    → update_resume_tokens event now clients tm ≡ tm
unfolding update_resume_tokens update_clients
same_tokens event now clients tm h = rw (none_updated clients h) refl

with_tokens-same :
    (event : ChangeEvent) (now : ℕ) (s : Server) (o : Option TokenManager)
    → s.token_manager ≡ o
    → has_vm_sync_clients s.clients ≡ false
    → with_tokens event now s o ≡ s
with_tokens-same event now s none e h = refl
with_tokens-same event now s (some tm) e h =
    ap (λ t. record s { token_manager = t })
      (ap some (same_tokens event now s.clients tm h) ∙ sym e)

-- While no client of the other side is connected, an event changes nothing: it is written to no
-- connection, and no resume token is recorded for it, whichever clients are registered.
pub handle_change_event-unconnected :
    (marshal : ChangeEvent → Option Bytes) (encrypt : Option (Bytes → Option Bytes))
    (writes : Bytes → Bool) (event : ChangeEvent) (now : ℕ) (s : Server)
    → has_vm_sync_clients s.clients ≡ false
    → handle_change_event marshal encrypt writes event now s ≡ s
unfolding handle_change_event
handle_change_event-unconnected marshal encrypt writes event now s h =
    rw (with_tokens-same event now s s.token_manager refl h, h) refl

-- Delivery ----------------------------------------------------------------

abbrev pub only_if : Bool → Bytes → List Bytes
only_if b m = if b then m ∷ [] else []

-- The messages that were written to a connection, in their order.
abbrev pub messages_to : Bytes → List (Bytes × Bytes) → List Bytes
messages_to conn [] = []
messages_to conn ((c, m) ∷ sent) = only_if (bytes_eq conn c) m ++ messages_to conn sent

abbrev pub is_target : Option ClientInfo → Bool
is_target none = false
is_target (some info) = is_vm_sync info

messages_to-append :
    (conn : Bytes) (xs ys : List (Bytes × Bytes))
    → messages_to conn (xs ++ ys) ≡ messages_to conn xs ++ messages_to conn ys
messages_to-append conn [] ys = refl
messages_to-append conn ((c, m) ∷ xs) ys =
    ap (λ ms. only_if (bytes_eq conn c) m ++ ms) (messages_to-append conn xs ys)
    ∙ sym (append_assoc (only_if (bytes_eq conn c) m) (messages_to conn xs) (messages_to conn ys))

-- What a round of the loop adds for its own connection and for another one.
write_all-at :
    (writes : Bytes → Bool) (message conn c : Bytes) (info : ClientInfo)
    (clients : List (Bytes × ClientInfo))
    → (messages_to conn (write_all writes message ((c, info) ∷ clients)).0
        ≡ only_if (bytes_eq conn c && (is_vm_sync info && writes c)) message
          ++ messages_to conn (write_all writes message clients).0)
      × (is_in conn (write_all writes message ((c, info) ∷ clients)).1 ≡ (
          (bytes_eq conn c && (is_vm_sync info && not (writes c)))
          || is_in conn (write_all writes message clients).1))
unfolding write_all
write_all-at writes message conn c info clients = elim (Bool-cases (is_vm_sync info)) [
  | inl v ↦ elim (Bool-cases (writes c)) [
    | inl w ↦ elim (Bool-cases (bytes_eq conn c)) [
      | inl e ↦ rw (v, w, e) (refl, refl)
      | inr e ↦ rw (v, w, e) (refl, refl)
    ]
    | inr w ↦ elim (Bool-cases (bytes_eq conn c)) [
      | inl e ↦ rw (v, w, e) (refl, refl)
      | inr e ↦ rw (v, w, e) (refl, refl)
    ]
  ]
  | inr v ↦ elim (Bool-cases (bytes_eq conn c)) [
    | inl e ↦ rw (v, e) (refl, refl)
    | inr e ↦ rw (v, e) (refl, refl)
  ]
]

or_false : (b : Bool) → (b || false) ≡ b
or_false true = refl
or_false false = refl

write_all-lookup :
    (writes : Bytes → Bool) (message conn : Bytes) (clients : List (Bytes × ClientInfo))
    → IsMap clients
    → (messages_to conn (write_all writes message clients).0
        ≡ only_if (is_target (lookup conn clients) && writes conn) message)
      × (is_in conn (write_all writes message clients).1
          ≡ (is_target (lookup conn clients) && not (writes conn)))
unfolding IsMap lookup write_all
write_all-lookup writes message conn [] h = (refl, refl)
write_all-lookup writes message conn ((c, info) ∷ clients) h =
    let at = write_all-at writes message conn c info clients in
    let rest = write_all-lookup writes message conn clients h.1 in
    elim (Bool-cases (bytes_eq conn c)) [
      | inl e ↦
          let same = bytes_eq→eq conn c e in
          let missing = ap (λ x. lookup x clients) same ∙ h.0 in
          (
            at.0
                ∙ (ap
                      (λ ms.
                        only_if (bytes_eq conn c && (is_vm_sync info && writes c)) message ++ ms)
                      (rest.0 ∙ ap (λ o. only_if (is_target o && writes conn) message) missing)
                    ∙ rw (e, same) (append-nil (only_if (is_vm_sync info && writes c) message))),
            at.1
                ∙ (ap (λ b. (bytes_eq conn c && (is_vm_sync info && not (writes c))) || b)
                      (rest.1 ∙ ap (λ o. is_target o && not (writes conn)) missing)
                    ∙ rw (e, same) (or_false (is_vm_sync info && not (writes c)))),
          )
      | inr e ↦ (
        at.0
            ∙ (ap
                  (λ b.
                    only_if (b && (is_vm_sync info && writes c)) message
                    ++ messages_to conn (write_all writes message clients).0)
                  e
                ∙ rw e rest.0),
        at.1 ∙ rw e rest.1,
      )
    ]

-- A broadcast of an event that can be encoded writes its message once to each connected client of the
-- other side whose connection takes it, and nothing else to any connection; it drops the clients of the other side whose
-- connection does not, and keeps all others.
pub broadcast_to_clients-delivers :
    (marshal : ChangeEvent → Option Bytes) (encrypt : Option (Bytes → Option Bytes))
    (writes : Bytes → Bool) (event : ChangeEvent) (message conn : Bytes) (s : Server)
    → change_message marshal encrypt event ≡ some message
    → IsMap s.clients
    → let s' = broadcast_to_clients marshal encrypt writes event s in
      let target = is_target (lookup conn s.clients) in
      (messages_to conn s'.sent
        ≡ messages_to conn s.sent ++ only_if (target && writes conn) message)
      × (lookup conn s'.clients
          ≡ (if target && not (writes conn) then none else lookup conn s.clients))
unfolding broadcast_to_clients
broadcast_to_clients-delivers marshal encrypt writes event message conn s e h = rw e (
  messages_to-append conn s.sent (write_all writes message s.clients).0
      ∙ ap (λ ms. messages_to conn s.sent ++ ms)
          (write_all-lookup writes message conn s.clients h).0,
  lookup-remove_all conn (write_all writes message s.clients).1 s.clients
      ∙ ap (λ b. if b then none else lookup conn s.clients)
          (write_all-lookup writes message conn s.clients h).1,
)
