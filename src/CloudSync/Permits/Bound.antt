-- ===== src/CloudSync/Permits/Bound.antt =====
-- cmd/cloud-sync/main.go: how many goroutines hold a permit at once.
use go_mongo_sync.Prelude.{
  ℕ, zero, suc, ◌+◌, ◌≤◌, ◌≡◌, refl, sym, ap, ap₂, ◌∙◌, subst, Bool-cases, Option-cases, inl, inr,
  Option, none, some, List, [], ◌∷◌, replicate, ltb, ltb→lt, lt→ltb, if◌then◌else◌, arith,
}
use go_mongo_sync.Prelude.Steps.{bind, Holds, Holds-bind}
use go_mongo_sync.CloudSync.Permits.{
  Permits, new_semaphore, initialize_semaphore, update_parallelism, acquire_from, acquire_permit,
  release_to, release_permit,
}

pub data Action : Type 0 where
  acquire release : Action

-- What a goroutine does: none where it waits, or would release what it does not hold.
abbrev pub act : Action → Permits → Option Permits
act acquire p = acquire_permit p
act release p = if ltb 0 p.holders then some (release_permit p) else none

unfoldable pub act_all : List Action → Permits → Option Permits
act_all [] p = some p
act_all (a ∷ actions) p = bind (act a p) (λ p'. act_all actions p')

-- Each holder has its token in the semaphore, whose capacity is given.
pub record IsBounded (capacity : ℕ) (p : Permits) : Type 0 where
  pub made : p.semaphore ≡ some (record { capacity = capacity; tokens = p.holders })
  pub within : p.holders ≤ capacity

acquire_permit-IsBounded :
    (capacity : ℕ) (p : Permits)
    → IsBounded capacity p
    → Holds (IsBounded capacity) (acquire_permit p)
unfolding acquire_permit
acquire_permit-IsBounded capacity p b =
    subst (λ s. Holds (IsBounded capacity) (acquire_from p s)) (sym b.made)
      (elim (Bool-cases (ltb p.holders capacity)) [
        | inl h ↦ rw h (record { made = refl; within = omega (arith, ltb→lt p.holders capacity h) })
        | inr h ↦ rw h tt
      ])

release_permit-IsBounded :
    (capacity : ℕ) (p : Permits) → IsBounded capacity p → IsBounded capacity (release_permit p)
unfolding release_permit
release_permit-IsBounded capacity p b =
    subst (λ s. IsBounded capacity (release_to p s)) (sym b.made)
      (record { made = refl; within = omega (arith, b.within) })

act-IsBounded :
    (capacity : ℕ) (a : Action) (p : Permits)
    → IsBounded capacity p
    → Holds (IsBounded capacity) (act a p)
act-IsBounded capacity acquire p b = acquire_permit-IsBounded capacity p b
act-IsBounded capacity release p b = elim (Bool-cases (ltb 0 p.holders)) [
  | inl h ↦ rw h (release_permit-IsBounded capacity p b)
  | inr h ↦ rw h tt
]

act_all-IsBounded :
    (capacity : ℕ) (actions : List Action) (p : Permits)
    → IsBounded capacity p
    → Holds (IsBounded capacity) (act_all actions p)
unfolding act_all
act_all-IsBounded capacity [] p b = b
act_all-IsBounded capacity (a ∷ actions) p b =
    Holds-bind (IsBounded capacity) (IsBounded capacity) (act a p) (λ p'. act_all actions p')
      (act-IsBounded capacity a p b) (λ p' b'. act_all-IsBounded capacity actions p' b')

-- As long as the capacity is not changed, no more goroutines hold a permit than the capacity the
-- semaphore was made with, in whatever order they acquire and release.
pub initialize_semaphore-IsBounded :
    (capacity : ℕ) (actions : List Action) (p : Permits)
    → p.holders ≡ 0
    → Holds (IsBounded capacity) (act_all actions (initialize_semaphore capacity p))
unfolding initialize_semaphore
initialize_semaphore-IsBounded capacity actions p h =
    act_all-IsBounded capacity actions (initialize_semaphore capacity p) (record {
      made = ap (λ n. some (record { capacity = capacity; tokens = n })) (sym h);
      within = omega (arith, h);
    })

abbrev with_permits : ℕ → ℕ → ℕ → Permits
with_permits capacity tokens holders = record {
  semaphore = some (record { capacity = capacity; tokens = tokens });
  holders = holders;
}

acquire_many :
    (n capacity tokens h : ℕ)
    → tokens + n ≤ capacity
    → act_all (replicate n acquire) (with_permits capacity tokens h)
      ≡ some (with_permits capacity (tokens + n) (h + n))
unfolding act_all acquire_permit
acquire_many zero capacity tokens h room =
    ap₂ (λ a b. some (with_permits capacity a b)) (omega arith) (omega arith)
acquire_many (suc n) capacity tokens h room = rw (lt→ltb tokens capacity (omega arith)) (
    acquire_many n capacity (tokens + 1) (h + 1) (omega arith)
    ∙ ap₂ (λ a b. some (with_permits capacity a b)) (omega arith) (omega arith))

update_parallelism-fresh :
    (n : ℕ) (p : Permits)
    → (update_parallelism n p).1 ≡ record p { semaphore = some (new_semaphore n) }
unfolding update_parallelism
update_parallelism-fresh n p = elim (Option-cases p.semaphore) [
  | inl h ↦ rw (h, update_parallelism) refl
  | inr (s, h) ↦ rw (h, update_parallelism) refl
]

-- Changing the capacity counts no permit that is held: afterwards as many goroutines as the new
-- capacity acquire one without waiting, beside all those that hold one already.
update_parallelism-acquire :
    (n : ℕ) (p : Permits)
    → act_all (replicate n acquire) (update_parallelism n p).1
      ≡ some (record {
        semaphore = some (record { capacity = n; tokens = n });
        holders = p.holders + n;
      })
update_parallelism-acquire n p = rw (update_parallelism-fresh n p) (
    acquire_many n n 0 p.holders (omega arith)
    ∙ ap (λ a. some (with_permits n a (p.holders + n))) (omega arith))
