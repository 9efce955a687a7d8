-- ===== src/Transport/Queue/Waiting.antt =====
-- pkg/transport/buffer.go: what `Enqueue` and `Dequeue` leave behind, whatever other callers do
-- while they wait and however the wait ends.
use go_mongo_sync.Prelude.{
  ℕ, ◌+◌, ◌≤◌, ◌<◌, ◌≡◌, refl, Bool-cases, inl, inr, List, [], ◌∷◌, ◌++◌, ltb, Bool, true, false,
  if◌then◌else◌, arith, ltb→lt, lt→ltb, le→ltb,
}
use go_mongo_sync.Transport.Queue.{
  Queue, QueueStats, Wait, taken, added, tick, deadline, shutdown, Enqueued, accepted, full_timeout,
  Dequeued, given, empty_timeout, put, take_item, count_block, other_takes, other_adds, enqueue,
  dequeue, new_queue, give,
}
use go_mongo_sync.Transport.Queue.Refine.{
  Represents, put-Represents, take_item-Represents, new_queue-Represents,
}

module _ {ℓ κ} {A : Type ℓ} (P : Queue A → Type κ) where
  -- the queue that a call leaves, however it ends
  abbrev pub AfterEnqueue : Enqueued A → Type κ
  AfterEnqueue (accepted q) = P q
  AfterEnqueue (full_timeout q) = P q
  AfterEnqueue (Enqueued.shutting_down q) = P q
  AfterEnqueue (Enqueued.blocked q) = P q

  abbrev pub AfterDequeue : Dequeued A → Type κ
  AfterDequeue (given x q) = P q
  AfterDequeue (empty_timeout q) = P q
  AfterDequeue (Dequeued.shutting_down q) = P q
  AfterDequeue (Dequeued.blocked q) = P q

-- What every step of the queue keeps, its calls keep.
record Keeps {ℓ κ} {A : Type ℓ} (P : Queue A → Type κ) : Type (ℓ ⊔ κ) where
  keep_put : (q : Queue A) (x : A) → P q → q.size < q.capacity → P (put q x)
  keep_take : (q : Queue A) → P q → 0 < q.size → P (take_item q).1
  keep_block : (q : Queue A) → P q → P (count_block q)
  keep_drop :
      (q : Queue A)
      → P q
      → P (record q { stats = record q.stats { dropped_total = q.stats.dropped_total + 1 } })

module _ {ℓ κ} {A : Type ℓ} (P : Queue A → Type κ) (k : Keeps P) where
  other_takes-keeps : (q : Queue A) → P q → P (other_takes q)
  unfolding other_takes
  other_takes-keeps q h = elim (Bool-cases (ltb 0 q.size)) [
    | inl e ↦ rw e (k.keep_take q h (ltb→lt 0 q.size e))
    | inr e ↦ rw e h
  ]

  other_adds-keeps : (q : Queue A) (x : A) → P q → P (other_adds x q)
  unfolding other_adds
  other_adds-keeps q x h = elim (Bool-cases (ltb q.size q.capacity)) [
    | inl e ↦ rw e (k.keep_put q x h (ltb→lt q.size q.capacity e))
    | inr e ↦ rw e h
  ]

  -- Either there is space, or the call ends as `otherwise` does.
  space_or :
      (q : Queue A) (x : A) (otherwise : Enqueued A)
      → P q
      → AfterEnqueue P otherwise
      → AfterEnqueue P (if ltb q.size q.capacity then accepted (put q x) else otherwise)
  space_or q x otherwise h o = elim (Bool-cases (ltb q.size q.capacity)) [
    | inl e ↦ rw e (k.keep_put q x h (ltb→lt q.size q.capacity e))
    | inr e ↦ rw e o
  ]

  enqueue-keeps : (q : Queue A) (x : A) (ws : List (Wait A)) → P q → AfterEnqueue P (enqueue q x ws)
  unfolding enqueue
  enqueue-keeps q x [] h = space_or q x _ h h
  enqueue-keeps q x (taken ∷ ws) h = space_or q x _ h (
      enqueue-keeps (other_takes (count_block q)) x ws
        (other_takes-keeps (count_block q) (k.keep_block q h)))
  enqueue-keeps q x (added y ∷ ws) h = space_or q x _ h (
      enqueue-keeps (other_adds y (count_block q)) x ws
        (other_adds-keeps (count_block q) y (k.keep_block q h)))
  enqueue-keeps q x (tick ∷ ws) h =
      space_or q x _ h (enqueue-keeps (count_block q) x ws (k.keep_block q h))
  enqueue-keeps q x (deadline ∷ ws) h = space_or q x _ h (k.keep_drop q h)
  enqueue-keeps q x (shutdown ∷ ws) h = space_or q x _ h (k.keep_block q h)

  item_or :
      (q : Queue A) (otherwise : Dequeued A)
      → P q
      → AfterDequeue P otherwise
      → AfterDequeue P (if ltb 0 q.size then give (take_item q) else otherwise)
  unfolding give
  item_or q otherwise h o = elim (Bool-cases (ltb 0 q.size)) [
    | inl e ↦ rw e (k.keep_take q h (ltb→lt 0 q.size e))
    | inr e ↦ rw e o
  ]

  dequeue-keeps : (q : Queue A) (ws : List (Wait A)) → P q → AfterDequeue P (dequeue q ws)
  unfolding dequeue
  dequeue-keeps q [] h = item_or q _ h h
  dequeue-keeps q (taken ∷ ws) h =
      item_or q _ h (dequeue-keeps (other_takes q) ws (other_takes-keeps q h))
  dequeue-keeps q (added y ∷ ws) h =
      item_or q _ h (dequeue-keeps (other_adds y q) ws (other_adds-keeps q y h))
  dequeue-keeps q (tick ∷ ws) h = item_or q _ h (dequeue-keeps q ws h)
  dequeue-keeps q (deadline ∷ ws) h = item_or q _ h h
  dequeue-keeps q (shutdown ∷ ws) h = item_or q _ h h

-- The ring holds some queue of items, and the counters account for them: what was put in was
-- taken out or is still there.
pub record IsValid {ℓ} {A : Type ℓ} (q : Queue A) : Type ℓ where
  pub items : List A
  pub represents : Represents q items
  pub balanced : q.stats.enqueued_total ≡ q.stats.dequeued_total + q.size

module _ {ℓ} {A : Type ℓ} where
  Represents-stats :
      (q : Queue A) (s : QueueStats) {xs : List A}
      → Represents q xs
      → Represents (record q { stats = s }) xs
  Represents-stats q s r = record {
    capacity_pos = r.capacity_pos;
    buffer_length = r.buffer_length;
    read_fits = r.read_fits;
    size_eq = r.size_eq;
    bounded = r.bounded;
    write_eq = r.write_eq;
    window = r.window;
  }

  take_item-IsValid :
      (q : Queue A) (xs : List A)
      → Represents q xs
      → q.stats.enqueued_total ≡ q.stats.dequeued_total + q.size
      → 0 < q.size
      → IsValid (take_item q).1
  take_item-IsValid q [] r b h = absurd (omega (arith, r.size_eq))
  take_item-IsValid q (x ∷ xs) r b h = record {
    items = xs;
    represents = (take_item-Represents q x xs r).1;
    balanced = unfold take_item in omega arith;
  }

  IsValid-keeps : Keeps {A = A} IsValid
  IsValid-keeps = record {
    keep_put = λ q x v space. record {
      items = v.items ++ (x ∷ []);
      represents = put-Represents q v.items x v.represents space;
      balanced = unfold put in omega (arith, v.balanced);
    };
    keep_take = λ q v h. take_item-IsValid q v.items v.represents v.balanced h;
    keep_block = λ q v. record {
      items = v.items;
      represents = unfold count_block in Represents-stats q _ v.represents;
      balanced = unfold count_block in v.balanced;
    };
    keep_drop = λ q v. record {
      items = v.items;
      represents = Represents-stats q _ v.represents;
      balanced = v.balanced;
    };
  }

  pub new_queue-IsValid : (capacity : ℕ) → IsValid (new_queue {A = A} capacity)
  unfolding new_queue
  new_queue-IsValid capacity = record {
    items = [];
    represents = new_queue-Represents capacity;
    balanced = refl;
  }

  -- Whatever other callers do while `Enqueue` waits, and however it ends, the queue it leaves is
  -- valid if the queue it met was.
  enqueue-IsValid :
      (q : Queue A) (x : A) (ws : List (Wait A)) → IsValid q → AfterEnqueue IsValid (enqueue q x ws)
  enqueue-IsValid q x ws v = enqueue-keeps IsValid IsValid-keeps q x ws v

  -- Whatever other callers do while `Dequeue` waits, and however it ends, the queue it leaves is
  -- valid if the queue it met was.
  dequeue-IsValid :
      (q : Queue A) (ws : List (Wait A)) → IsValid q → AfterDequeue IsValid (dequeue q ws)
  dequeue-IsValid q ws v = dequeue-keeps IsValid IsValid-keeps q ws v

module _ {ℓ} {A : Type ℓ} where
  -- With space, `Enqueue` puts the item in at once.
  pub enqueue-space :
      (q : Queue A) (x : A) (ws : List (Wait A))
      → q.size < q.capacity
      → enqueue q x ws ≡ accepted (put q x)
  unfolding enqueue
  enqueue-space q x [] h = rw (lt→ltb q.size q.capacity h)
  enqueue-space q x (taken ∷ ws) h = rw (lt→ltb q.size q.capacity h)
  enqueue-space q x (added y ∷ ws) h = rw (lt→ltb q.size q.capacity h)
  enqueue-space q x (tick ∷ ws) h = rw (lt→ltb q.size q.capacity h)
  enqueue-space q x (deadline ∷ ws) h = rw (lt→ltb q.size q.capacity h)
  enqueue-space q x (shutdown ∷ ws) h = rw (lt→ltb q.size q.capacity h)

  -- A wait in which no caller takes an item out before the deadline.
  abbrev pub waits_out : List (Wait A) → Bool
  waits_out [] = false
  waits_out (taken ∷ ws) = false
  waits_out (added y ∷ ws) = waits_out ws
  waits_out (tick ∷ ws) = waits_out ws
  waits_out (deadline ∷ ws) = true
  waits_out (shutdown ∷ ws) = false

  -- A queue with the same items, in which one more drop is counted.
  pub record IsDropped (q q' : Queue A) : Type ℓ where
    pub same_buffer : q'.buffer ≡ q.buffer
    pub same_read_idx : q'.read_idx ≡ q.read_idx
    pub same_write_idx : q'.write_idx ≡ q.write_idx
    pub same_size : q'.size ≡ q.size
    pub one_dropped : q'.stats.dropped_total ≡ q.stats.dropped_total + 1
    pub none_enqueued : q'.stats.enqueued_total ≡ q.stats.enqueued_total

  -- Full until the deadline, it drops the item, whatever the ticks and the other callers that find
  -- it full as well.
  pub enqueue-waits_out :
      (q : Queue A) (x : A) (ws : List (Wait A))
      → q.capacity ≤ q.size
      → waits_out ws ≡ true
      → (q' : Queue A) × (enqueue q x ws ≡ full_timeout q') × IsDropped q q'
  unfolding enqueue other_adds count_block
  enqueue-waits_out q x [] full h = absurd cc
  enqueue-waits_out q x (taken ∷ ws) full h = absurd cc
  enqueue-waits_out q x (added y ∷ ws) full h =
      let (q', e, d) = enqueue-waits_out (count_block q) x ws full h in
      let no_space = le→ltb q.size q.capacity full in
      (
        q',
        rw no_space e,
        record {
          same_buffer = d.same_buffer;
          same_read_idx = d.same_read_idx;
          same_write_idx = d.same_write_idx;
          same_size = d.same_size;
          one_dropped = d.one_dropped;
          none_enqueued = d.none_enqueued;
        },
      )
  enqueue-waits_out q x (tick ∷ ws) full h =
      let (q', e, d) = enqueue-waits_out (count_block q) x ws full h in
      (
        q',
        rw (le→ltb q.size q.capacity full) e,
        record {
          same_buffer = d.same_buffer;
          same_read_idx = d.same_read_idx;
          same_write_idx = d.same_write_idx;
          same_size = d.same_size;
          one_dropped = d.one_dropped;
          none_enqueued = d.none_enqueued;
        },
      )
  enqueue-waits_out q x (deadline ∷ ws) full h = (
    record q { stats = record q.stats { dropped_total = q.stats.dropped_total + 1 } },
    rw (le→ltb q.size q.capacity full) refl,
    record {
      same_buffer = refl;
      same_read_idx = refl;
      same_write_idx = refl;
      same_size = refl;
      one_dropped = refl;
      none_enqueued = refl;
    },
  )
  enqueue-waits_out q x (shutdown ∷ ws) full h = absurd cc
