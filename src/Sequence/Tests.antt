-- ===== src/Sequence/Tests.antt =====
-- The theorems on sequence numbers at concrete inputs.
use go_mongo_sync.Prelude.{ℕ, ◌<◌, none, ◌+◌, ◌≤◌, ◌≡◌, refl, some, List, [], ◌∷◌, length, arith}
use go_mongo_sync.Sequence.{
  Reply, answered, unheard, new_generator, initialize_counter, batch_size_of, next_sequence,
  allocate_batch,
}
use go_mongo_sync.Sequence.Row.{numbers, after_calls, consecutive, AllHeard}
use go_mongo_sync.Sequence.Distinct.{numbers_continue, given_twice}

-- The second batch is lost to an error of the database at first.
abbrev answers : List Reply
answers = answered ∷ answered ∷ unheard ∷ answered ∷ []

numbers_at_seven : numbers answers (new_generator 2 (some 7)) ≡ 8 ∷ 9 ∷ 10 ∷ []
unfolding numbers new_generator initialize_counter batch_size_of next_sequence allocate_batch
numbers_at_seven = refl

-- A generator that has given no number yet leaves out a batch that it never heard of.
numbers_of_new : numbers (unheard ∷ answered ∷ []) (new_generator 2 none) ≡ 3 ∷ []
unfolding numbers new_generator initialize_counter batch_size_of next_sequence allocate_batch
numbers_of_new = refl

numbers_continue_example :
    let s = new_generator 2 (some 7) in
    let s' = after_calls answers s in
    (first : ℕ) × (s.generator.counter ≤ first)
    × (0 < s.generator.counter → first ≡ s.generator.counter)
    × (AllHeard answers → first ≡ s.generator.counter)
    × (numbers answers s ≡ consecutive (first + 1) (length (numbers answers s)))
    × (first + length (numbers answers s) ≤ (new_generator 5 (some s'.sequence)).generator.counter)
numbers_continue_example = numbers_continue 2 (some 7) answers 5

given_twice_example :
    let s = new_generator 2 (some 7) in
    let first = next_sequence answered s in
    let second = next_sequence answered (record s { sequence = first.1.sequence }) in
    (first.0 ≡ some 8) × (second.0 ≡ some 8) × (first.1.sequence ≡ 7 + batch_size_of 2)
given_twice_example = given_twice 2 7 (omega arith)
