-- ===== src/Resume/Tokens/Cleanup.antt =====
-- pkg/resume/token_manager.go: which clients `performCleanup` forgets.
use go_mongo_sync.Prelude.{
  ℕ, ◌≡◌, refl, ap, ◌∙◌, Bool, true, false, Bool-cases, inl, inr, Option, none, some, List, [], ◌∷◌,
  if◌then◌else◌,
}
use go_mongo_sync.Prelude.Bytes.{Bytes, bytes_eq, bytes_eq→eq}
use go_mongo_sync.Prelude.Maps.{lookup, IsMap, is_in, lookup-remove_all}
use go_mongo_sync.Resume.Tokens.{
  TokenManager, ClientResumeState, is_expired, to_delete, perform_cleanup,
}

-- Of a client what is kept after a cleanup.
abbrev pub unexpired : ℕ → Option ClientResumeState → Option ClientResumeState
unexpired cutoff none = none
unexpired cutoff (some c) = if is_expired cutoff c then none else some c

abbrev expired : ℕ → Option ClientResumeState → Bool
expired cutoff none = false
expired cutoff (some c) = is_expired cutoff c

is_in-at :
    (b : Bool) (id x : Bytes) (xs : List Bytes)
    → bytes_eq id x ≡ true
    → is_in id xs ≡ false
    → is_in id (if b then x ∷ xs else xs) ≡ b
is_in-at true id x xs e h = rw e refl
is_in-at false id x xs e h = h

is_in-past :
    (b : Bool) (id x : Bytes) (xs : List Bytes)
    → bytes_eq id x ≡ false
    → is_in id (if b then x ∷ xs else xs) ≡ is_in id xs
is_in-past true id x xs e = rw e refl
is_in-past false id x xs e = refl

is_in-to_delete :
    (cutoff : ℕ) (id : Bytes) (m : List (Bytes × ClientResumeState))
    → IsMap m
    → is_in id (to_delete cutoff m) ≡ expired cutoff (lookup id m)
unfolding to_delete lookup IsMap
is_in-to_delete cutoff id [] h = refl
is_in-to_delete cutoff id ((x, c) ∷ m) h = elim (Bool-cases (bytes_eq id x)) [
  | inl e ↦ rw e (
      is_in-at (is_expired cutoff c) id x (to_delete cutoff m) e (
        is_in-to_delete cutoff id m h.1
        ∙ ap (expired cutoff) (ap (λ k. lookup k m) (bytes_eq→eq id x e) ∙ h.0)))
  | inr e ↦ rw e (
      is_in-past (is_expired cutoff c) id x (to_delete cutoff m) e
      ∙ is_in-to_delete cutoff id m h.1)
]

unexpired_if :
    (cutoff : ℕ) (o : Option ClientResumeState)
    → (if expired cutoff o then none else o) ≡ unexpired cutoff o
unexpired_if cutoff none = refl
unexpired_if cutoff (some c) = refl

-- A cleanup forgets the clients that are disconnected and were last seen before the limit, whether or
-- not the database answers, and keeps every other client with its tokens as they were.
lookup-perform_cleanup :
    (answers : Bool) (cutoff : ℕ) (tm : TokenManager) (id : Bytes)
    → IsMap tm.client_tokens
    → lookup id (perform_cleanup answers cutoff tm).client_tokens
      ≡ unexpired cutoff (lookup id tm.client_tokens)
unfolding perform_cleanup
lookup-perform_cleanup answers cutoff tm id h =
    lookup-remove_all id (to_delete cutoff tm.client_tokens) tm.client_tokens
    ∙ rw (is_in-to_delete cutoff id tm.client_tokens h)
        (unexpired_if cutoff (lookup id tm.client_tokens))
