-- ===== src/Cluster/Coordinator/Conservation.antt =====
-- pkg/cluster/event_coordinator.go: every event submitted is counted once.
use go_mongo_sync.Prelude.{ℕ, ◌+◌, ◌-◌, ◌≤◌, refl, subst, Option, some, List, [], ◌∷◌, arith}
use go_mongo_sync.Prelude.Steps.{bind, Holds, Holds-bind}
use go_mongo_sync.Models.{ChangeEvent}
use go_mongo_sync.Cluster.Buffer.{Formats}
use go_mongo_sync.Cluster.Coordinator.{
  EventCoordinator, EventCoordinatorConfig, submit_event, receive_event, on_ticker, take_output,
}
use go_mongo_sync.Cluster.Coordinator.Accounts.{
  Accounts, recounted, receive_from-Accounts, on_ticker-Accounts, take_from-Accounts,
  submit_event-Accounts,
}

-- The steps of a coordinator's goroutines, in the order in which they happen.
pub data Step : Type 0 where
  submitting : ChangeEvent → Step
  receiving : ℕ → Step
  tick take : Step

abbrev pub submits : List Step → ℕ
submits [] = 0
submits (submitting e ∷ steps) = submits steps + 1
submits (receiving now ∷ steps) = submits steps
submits (tick ∷ steps) = submits steps
submits (take ∷ steps) = submits steps

module _ (config : EventCoordinatorConfig) (formats : Formats) where
  abbrev pub step : Step → EventCoordinator → Option EventCoordinator
  step (submitting e) ec = some (submit_event config e ec).1
  step (receiving now) ec = receive_event config formats now ec
  step tick ec = on_ticker config ec
  step take ec = some (take_output ec)

  unfoldable pub run_steps : List Step → EventCoordinator → Option EventCoordinator
  run_steps [] ec = some ec
  run_steps (s ∷ steps) ec = bind (step s ec) (λ ec'. run_steps steps ec')

  step-Accounts :
      (n : ℕ) (s : Step) (steps : List Step) (ec : EventCoordinator)
      → Accounts config n ec
      → Holds (Accounts config (n + (submits (s ∷ steps) - submits steps))) (step s ec)
  unfolding receive_event take_output
  step-Accounts n (submitting e) steps ec a =
      recounted config (n + 1) (n + (submits steps + 1 - submits steps))
        (submit_event config e ec).1 (omega arith) (submit_event-Accounts config n e ec a)
  step-Accounts n (receiving now) steps ec a =
      subst (λ m. Holds (Accounts config m) (receive_event config formats now ec)) (omega arith)
        (receive_from-Accounts config formats now n ec.input_queue ec refl a)
  step-Accounts n tick steps ec a =
      subst (λ m. Holds (Accounts config m) (on_ticker config ec)) (omega arith)
        (on_ticker-Accounts config n ec a)
  step-Accounts n take steps ec a =
      recounted config n (n + (submits steps - submits steps)) (take_output ec) (omega arith)
        (take_from-Accounts config n ec.output_queue ec refl a)

  submits_grow : (s : Step) (steps : List Step) → submits steps ≤ submits (s ∷ steps)
  submits_grow (submitting e) steps = omega arith
  submits_grow (receiving now) steps = omega arith
  submits_grow tick steps = omega arith
  submits_grow take steps = omega arith

  -- In whatever order the goroutines take their steps, and unless one panics, each event that is
  -- submitted is counted once as processed, duplicate or dropped, or waits in the queue or the batch;
  -- the two queues stay within their sizes and the batch below the size at which it is processed.
  pub run_steps-Accounts :
      (n : ℕ) (steps : List Step) (ec : EventCoordinator)
      → Accounts config n ec
      → Holds (Accounts config (n + submits steps)) (run_steps steps ec)
  unfolding run_steps
  run_steps-Accounts n [] ec a = recounted config n (n + 0) ec (omega arith) a
  run_steps-Accounts n (s ∷ steps) ec a =
      Holds-bind (Accounts config (n + (submits (s ∷ steps) - submits steps)))
        (Accounts config (n + submits (s ∷ steps))) (step s ec) (λ ec'. run_steps steps ec')
        (step-Accounts n s steps ec a)
        (λ ec' a'.
          subst (λ m. Holds (Accounts config m) (run_steps steps ec'))
            (omega (arith, submits_grow s steps))
            (run_steps-Accounts (n + (submits (s ∷ steps) - submits steps)) steps ec' a'))
