-- ===== src/Memory/Buffer.antt =====
-- pkg/memory/buffer.go: the buffer of change events in memory. `A` holds the fields of an event but its
-- size, and `marshalled` is the length of its JSON, or none on an error. A callback is there or not;
-- what it is called with is a result. The goroutines that `Add` and `Flush` start are steps of their own.
pub mod Bounded
pub mod Kept
use go_mongo_sync.Prelude.{
  ℕ, zero, suc, ◌+◌, ◌-◌, Bool, true, false, ◌||◌, ◌&&◌, Option, none, some, List, [], ◌∷◌, ◌++◌,
  length, take, ltb, leb, ◌==◌, if◌then◌else◌,
}
use go_mongo_sync.Prelude.Steps.{bind}

-- `ChangeEvent`
pub record BufferedEvent {ℓ} (A : Type ℓ) : Type ℓ where
  pub event : A
  pub size : ℕ

pub record MemoryBuffer {ℓ} (A : Type ℓ) : Type ℓ where
  pub events : List (BufferedEvent A)
  pub max_events : ℕ
  pub flush_size : ℕ
  pub total_size : ℕ
  pub has_callback : Bool

-- `Add` ends with the buffer and whether it starts `triggerFlush`, with an error, or in a panic.
pub data Addition {ℓ} (A : Type ℓ) : Type ℓ where
  appended : MemoryBuffer A → Bool → Addition A
  unmarshalled panics : Addition A

module _ {ℓ} {A : Type ℓ} where
  unfoldable pub new_memory_buffer : ℕ → ℕ → MemoryBuffer A
  new_memory_buffer max_events flush_size = record {
    events = [];
    max_events = max_events;
    flush_size = flush_size;
    total_size = 0;
    has_callback = false;
  }

  unfoldable pub set_flush_callback : MemoryBuffer A → MemoryBuffer A
  set_flush_callback b = record b { has_callback = true }

  abbrev pub without_oldest : List (BufferedEvent A) → MemoryBuffer A → Option (MemoryBuffer A)
  without_oldest [] b = none
  without_oldest (old ∷ events) b =
      some (record b { events = events; total_size = b.total_size - old.size })

  -- A full buffer loses its oldest event; none is the panic of one that holds no event at all.
  unfoldable pub make_buffer_room : MemoryBuffer A → Option (MemoryBuffer A)
  make_buffer_room b =
      if leb b.max_events (length b.events) then without_oldest b.events b else some b

  unfoldable pub append_event : A → ℕ → MemoryBuffer A → MemoryBuffer A
  append_event a size b = record b {
    events = b.events ++ (record { event = a; size = size } ∷ []);
    total_size = b.total_size + size;
  }

  unfoldable pub triggers : MemoryBuffer A → Bool
  triggers b = leb b.flush_size (length b.events) && b.has_callback

  abbrev pub append_to : A → ℕ → Option (MemoryBuffer A) → Addition A
  append_to a size none = panics
  append_to a size (some b) = let b' = append_event a size b in appended b' (triggers b')

  abbrev pub add_sized : A → MemoryBuffer A → Option ℕ → Addition A
  add_sized a b none = unmarshalled
  add_sized a b (some size) = append_to a size (make_buffer_room b)

  unfoldable pub add_to_buffer : (A → Option ℕ) → A → MemoryBuffer A → Addition A
  add_to_buffer marshalled a b = add_sized a b (marshalled a)

  -- `Get`, where a limit of 0 stands for one below as well.
  unfoldable pub get_events : ℕ → MemoryBuffer A → List (BufferedEvent A)
  get_events limit b =
      if limit == 0 || ltb (length b.events) limit
      then take (length b.events) b.events
      else take limit b.events

  unfoldable pub clear_buffer : MemoryBuffer A → MemoryBuffer A
  clear_buffer b = record b { events = []; total_size = 0 }

  -- What the callback is to be given stands beside the buffer, none where it is not called. `Flush`
  -- calls it in a goroutine of its own.
  unfoldable pub flush_buffer : MemoryBuffer A → MemoryBuffer A × Option (List (BufferedEvent A))
  flush_buffer b =
      if ltb 0 (length b.events) && b.has_callback
      then (clear_buffer b, some b.events)
      else (b, none)

  unfoldable pub trigger_flush : MemoryBuffer A → MemoryBuffer A × Option (List (BufferedEvent A))
  trigger_flush b = if triggers b then (clear_buffer b, some b.events) else (b, none)

-- The calls of the buffer by several goroutines, each under its lock, and the running of the goroutine
-- that `Flush` started as the n-th of those that have not run; they may run in any order.
pub data BufferCall {ℓ} (A : Type ℓ) : Type ℓ where
  adds : A → BufferCall A
  flushes triggered clears sets_callback : BufferCall A
  runs : ℕ → BufferCall A

-- The events that the callback was given, and those of the goroutines that have not called it yet.
pub record Callbacks {ℓ} (A : Type ℓ) : Type ℓ where
  pub called : List (BufferedEvent A)
  pub started : List (List (BufferedEvent A))

abbrev pub Handed {ℓ} : Type ℓ → Type ℓ
Handed A = MemoryBuffer A × Callbacks A

module _ {ℓ} {A : Type ℓ} where
  abbrev pub added : Handed A → Addition A → Option (Handed A)
  added (b, given) (appended b' t) = some (b', given)
  added (b, given) unmarshalled = some (b, given)
  added (b, given) panics = none

  -- `triggerFlush` calls the callback itself, `Flush` in a goroutine.
  abbrev pub handed_now : Callbacks A → MemoryBuffer A × Option (List (BufferedEvent A)) → Handed A
  handed_now given (b, none) = (b, given)
  handed_now given (b, some events) = (b, record given { called = given.called ++ events })

  abbrev pub handed_later :
      Callbacks A → MemoryBuffer A × Option (List (BufferedEvent A)) → Handed A
  handed_later given (b, none) = (b, given)
  handed_later given (b, some events) =
      (b, record given { started = given.started ++ (events ∷ []) })

  -- The n-th of some lists, and the others.
  abbrev pub taken_out :
      ℕ
      → List (List (BufferedEvent A))
      → Option (List (BufferedEvent A) × List (List (BufferedEvent A)))
  taken_out n [] = none
  taken_out zero (events ∷ rest) = some (events, rest)
  taken_out (suc n) (events ∷ rest) = bind (taken_out n rest) (λ r. some (r.0, events ∷ r.1))

  abbrev pub run_one :
      Callbacks A → Option (List (BufferedEvent A) × List (List (BufferedEvent A))) → Callbacks A
  run_one given none = given
  run_one given (some (events, rest)) = record { called = given.called ++ events; started = rest }

module _ {ℓ} {A : Type ℓ} (marshalled : A → Option ℕ) where
  unfoldable pub buffer_call : BufferCall A → Handed A → Option (Handed A)
  buffer_call (adds a) (b, given) = added (b, given) (add_to_buffer marshalled a b)
  buffer_call flushes (b, given) = some (handed_later given (flush_buffer b))
  buffer_call triggered (b, given) = some (handed_now given (trigger_flush b))
  buffer_call clears (b, given) = some (clear_buffer b, given)
  buffer_call sets_callback (b, given) = some (set_flush_callback b, given)
  buffer_call (runs n) (b, given) = some (b, run_one given (taken_out n given.started))

  unfoldable pub buffer_calls : List (BufferCall A) → Handed A → Option (Handed A)
  buffer_calls [] s = some s
  buffer_calls (c ∷ cs) s = bind (buffer_call c s) (λ s'. buffer_calls cs s')
