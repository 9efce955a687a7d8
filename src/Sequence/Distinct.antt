-- ===== src/Sequence/Distinct.antt =====
-- pkg/sequence/generator.go: which numbers a generator gives, and which two generators give.
use go_mongo_sync.Prelude.{
  ℕ, ◌+◌, ◌≤◌, ◌<◌, ◌≡◌, refl, false, Option, some, List, ◌==◌, le→leb, length, arith,
}
use go_mongo_sync.Sequence.{
  Reply, answered, allocate_batch, next_sequence, new_generator, batch_size_of, initialize_counter,
}
use go_mongo_sync.Sequence.Row.{
  numbers, after_calls, consecutive, AllHeard, numbers-Row, new_generator-IsAlone, counter_le_next,
}

-- A generator started on any document of its node, however the database replies to its calls, gives
-- consecutive numbers, none twice, the first of them above its counter. The first is the next above
-- its counter if that is not 0, or if no call changed the document and then ended with an error. A
-- generator started after it on the document that it leaves begins at or above the last of them.
pub numbers_continue :
    (batch_size : ℕ) (document : Option ℕ) (replies : List Reply) (later : ℕ)
    → let s = new_generator batch_size document in
      let s' = after_calls replies s in
      (first : ℕ) × (s.generator.counter ≤ first)
      × (0 < s.generator.counter → first ≡ s.generator.counter)
      × (AllHeard replies → first ≡ s.generator.counter)
      × (numbers replies s ≡ consecutive (first + 1) (length (numbers replies s)))
      × (first + length (numbers replies s)
          ≤ (new_generator later (some s'.sequence)).generator.counter)
numbers_continue batch_size document replies later =
    let (alone, tight) = new_generator-IsAlone batch_size document in
    let s = new_generator batch_size document in
    let r = numbers-Row replies s alone in
    (
      r.first,
      r.above,
      r.unskipped,
      λ heard. r.heard heard tight,
      r.in_order,
      omega (arith, r.last, counter_le_next later (after_calls replies s) r.alone),
    )

-- Two generators of one node, both started when its document is at `n`, give the same number first
-- where `n` is above 0, though each reserves a batch of its own: after the call of the first the
-- document is one batch above `n`, but the second goes on from its old counter.
pub given_twice :
    (batch_size n : ℕ)
    → 0 < n
    → let s = new_generator batch_size (some n) in
      let first = next_sequence answered s in
      let second = next_sequence answered (record s { sequence = first.1.sequence }) in
      (first.0 ≡ some (n + 1))
      × (second.0 ≡ some (n + 1))
      × (first.1.sequence ≡ n + batch_size_of batch_size)
unfolding new_generator initialize_counter next_sequence allocate_batch
given_twice batch_size n h = rw (le→leb n n (omega arith), is_above n h) (refl, refl, refl)
  where
    is_above : (k : ℕ) → 0 < k → (k == 0) ≡ false
    is_above k h = ground (arith, h)
