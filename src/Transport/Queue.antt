-- ===== src/Transport/Queue.antt =====
-- pkg/transport/buffer.go: `BufferedBatchQueue`, the ring buffer between the TCP connections and
-- the workers. The operations are modelled one after another; what happens while a caller waits
-- (other calls that free or fill a slot, ticks, the shutdown) is a list of events. `readIdx` and
-- `writeIdx` stay below `capacity`, so `% uint64(capacity)` is the only wrap.
-- The water marks are compared as fractions, 4·size with 3·capacity, as the floats 0.75 and 0.50
-- are exact; the wake-up channels carry no data and are left out.
pub mod Refine
pub mod Waiting
use go_mongo_sync.Prelude.{
  ℕ, zero, suc, ◌+◌, ◌-◌, ◌*◌, ◌%◌, Bool, true, false, Option, none, some, List, [], ◌∷◌, ltb, leb,
  ◌==◌, if◌then◌else◌, get_or, set, replicate,
}

pub record QueueStats : Type 0 where
  pub enqueued_total : ℕ
  pub dequeued_total : ℕ
  pub dropped_total : ℕ
  pub high_water_reached : ℕ
  pub full_block_count : ℕ

pub record Queue {ℓ} (A : Type ℓ) : Type ℓ where
  pub buffer : List (Option A)
  pub capacity : ℕ
  pub read_idx : ℕ
  pub write_idx : ℕ
  pub size : ℕ
  pub stats : QueueStats

abbrev pub default_capacity : ℕ
default_capacity = 100000

abbrev no_stats : QueueStats
no_stats = record {
  enqueued_total = 0;
  dequeued_total = 0;
  dropped_total = 0;
  high_water_reached = 0;
  full_block_count = 0;
}

-- What a waiting call meets, once for each turn of its loop: an item that another caller takes
-- out or puts in, the tick of the timer, the deadline, or the end of the queue.
pub data Wait {ℓ} (A : Type ℓ) : Type ℓ where
  taken : Wait A
  added : A → Wait A
  tick : Wait A
  deadline : Wait A
  shutdown : Wait A

pub data Enqueued {ℓ} (A : Type ℓ) : Type ℓ where
  accepted : Queue A → Enqueued A
  full_timeout : Queue A → Enqueued A
  shutting_down : Queue A → Enqueued A
  -- the call still waits
  blocked : Queue A → Enqueued A

pub data Dequeued {ℓ} (A : Type ℓ) : Type ℓ where
  given : Option A → Queue A → Dequeued A
  empty_timeout : Queue A → Dequeued A
  shutting_down : Queue A → Dequeued A
  blocked : Queue A → Dequeued A

module _ {ℓ} {A : Type ℓ} where
  -- A capacity that is not positive is replaced; here 0 stands for every such argument.
  unfoldable pub new_queue : ℕ → Queue A
  new_queue capacity =
      let cap = if capacity == 0 then default_capacity else capacity in
      record {
        buffer = replicate cap none;
        capacity = cap;
        read_idx = 0;
        write_idx = 0;
        size = 0;
        stats = no_stats;
      }

  unfoldable pub at_high_water : Queue A → Bool
  at_high_water q = leb (3 * q.capacity) (4 * q.size)

  -- The body of `Enqueue` when there is space.
  unfoldable pub put : Queue A → A → Queue A
  unfolding at_high_water
  put q item =
      let q' : Queue A = record q {
        buffer = set q.buffer q.write_idx (some item);
        write_idx = (q.write_idx + 1) % q.capacity;
        size = q.size + 1;
      } in
      record q' {
        stats = record q.stats {
          enqueued_total = q.stats.enqueued_total + 1;
          high_water_reached =
              if at_high_water q'
              then q.stats.high_water_reached + 1
              else q.stats.high_water_reached;
        };
      }

  -- The body of `Dequeue` when there is an item.
  unfoldable pub take_item : Queue A → Option A × Queue A
  take_item q = (
    get_or q.buffer q.read_idx none,
    record q {
      buffer = set q.buffer q.read_idx none;
      read_idx = (q.read_idx + 1) % q.capacity;
      size = q.size - 1;
      stats = record q.stats { dequeued_total = q.stats.dequeued_total + 1 };
    },
  )

  count_block : Queue A → Queue A
  count_block q = record q {
    stats = record q.stats { full_block_count = q.stats.full_block_count + 1 };
  }

  -- Another caller acts only where its own test lets it.
  unfoldable pub other_takes : Queue A → Queue A
  unfolding take_item
  other_takes q = if ltb 0 q.size then (take_item q).1 else q

  unfoldable pub other_adds : A → Queue A → Queue A
  unfolding put
  other_adds item q = if ltb q.size q.capacity then put q item else q

  -- `Enqueue`: the deadline is looked at before each wait.
  unfoldable pub enqueue : Queue A → A → List (Wait A) → Enqueued A
  unfolding put count_block other_takes other_adds
  enqueue q item [] = if ltb q.size q.capacity then accepted (put q item) else blocked q
  enqueue q item (taken ∷ ws) =
      let rest = enqueue (other_takes (count_block q)) item ws in
      if ltb q.size q.capacity then accepted (put q item) else rest
  enqueue q item (added x ∷ ws) =
      let rest = enqueue (other_adds x (count_block q)) item ws in
      if ltb q.size q.capacity then accepted (put q item) else rest
  enqueue q item (tick ∷ ws) =
      let rest = enqueue (count_block q) item ws in
      if ltb q.size q.capacity then accepted (put q item) else rest
  enqueue q item (deadline ∷ ws) =
      if ltb q.size q.capacity
      then accepted (put q item)
      else full_timeout
          (record q { stats = record q.stats { dropped_total = q.stats.dropped_total + 1 } })
  enqueue q item (shutdown ∷ ws) =
      if ltb q.size q.capacity then accepted (put q item) else shutting_down (count_block q)

  unfoldable pub give : Option A × Queue A → Dequeued A
  give (x, q) = given x q

  -- `Dequeue`.
  unfoldable pub dequeue : Queue A → List (Wait A) → Dequeued A
  unfolding take_item other_takes other_adds give
  dequeue q [] = if ltb 0 q.size then give (take_item q) else Dequeued.blocked q
  dequeue q (taken ∷ ws) =
      let rest = dequeue (other_takes q) ws in if ltb 0 q.size then give (take_item q) else rest
  dequeue q (added x ∷ ws) =
      let rest = dequeue (other_adds x q) ws in if ltb 0 q.size then give (take_item q) else rest
  dequeue q (tick ∷ ws) =
      let rest = dequeue q ws in if ltb 0 q.size then give (take_item q) else rest
  dequeue q (deadline ∷ ws) = if ltb 0 q.size then give (take_item q) else empty_timeout q
  dequeue q (shutdown ∷ ws) = if ltb 0 q.size then give (take_item q) else Dequeued.shutting_down q

-- `GetFlowControlStatus`; the thresholds 0.95 and 0.90 as fractions.
pub data FlowControl : Type 0 where
  critical slow throttle ready normal : FlowControl

unfoldable pub get_flow_control_status {ℓ} : {A : Type ℓ} → Queue A → FlowControl
get_flow_control_status q =
    if leb (19 * q.capacity) (20 * q.size)
    then critical
    else if leb (9 * q.capacity) (10 * q.size)
    then slow
    else if leb (3 * q.capacity) (4 * q.size)
    then throttle
    else if ltb (2 * q.size) q.capacity
    then ready
    else normal
