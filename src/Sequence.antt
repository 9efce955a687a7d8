-- ===== src/Sequence.antt =====
-- pkg/sequence/generator.go: sequence numbers by batches from a counter document in MongoDB. The
-- document of one node is its int64 `sequence`, a natural number; `findOneAndUpdate` with `$inc`
-- changes it in one step. How a call of the database ends is an argument, and so is what other
-- generators of the node do between calls. Numbers stay far below 2^63, and the generator is
-- enabled where it has a counter at all.
pub mod Distinct
pub mod Row
mod Tests
use go_mongo_sync.Prelude.{
  ℕ, ◌+◌, ◌-◌, Bool, true, false, Option, none, some, List, [], ◌∷◌, leb, ◌==◌, if◌then◌else◌,
}

pub record Generator : Type 0 where
  pub enabled : Bool
  pub counter : ℕ
  pub batch_size : ℕ
  pub max_seq : ℕ

-- A generator and the counter document.
pub record Store : Type 0 where
  pub generator : Generator
  pub sequence : ℕ

-- How a call of the database ends: with its answer, or with an error, of which the client cannot tell
-- whether the document was changed before it.
pub data Reply : Type 0 where
  answered refused unheard : Reply

-- The batch size that `NewGenerator` takes.
unfoldable pub batch_size_of : ℕ → ℕ
batch_size_of n = if n == 0 then 1000 else n

-- `initializeCounter` on the document of the node, if there is one; the document it leaves.
unfoldable pub initialize_counter : ℕ → Option ℕ → Store
initialize_counter batch_size none = record {
  generator = record { enabled = true; counter = 0; batch_size = batch_size; max_seq = 0 };
  sequence = 0;
}
initialize_counter batch_size (some n) = record {
  generator = record { enabled = true; counter = n; batch_size = batch_size; max_seq = n };
  sequence = n;
}

-- `NewGenerator` on an enabled configuration.
unfoldable pub new_generator : ℕ → Option ℕ → Store
unfolding batch_size_of initialize_counter
new_generator batch_size document = initialize_counter (batch_size_of batch_size) document

-- `allocateBatch`
unfoldable pub allocate_batch : Reply → Store → Bool × Store
allocate_batch refused s = (false, s)
allocate_batch unheard s = (false, record s { sequence = s.sequence + s.generator.batch_size })
allocate_batch answered s =
    let g = s.generator in
    let n = s.sequence + g.batch_size in
    (
      true,
      record {
        generator = record g {
          max_seq = n;
          counter = if g.counter == 0 then n - g.batch_size else g.counter;
        };
        sequence = n;
      },
    )

abbrev next_after : Bool × Store → Option ℕ × Store
next_after (false, s) = (none, s)
next_after (true, s) = (
  some (s.generator.counter + 1),
  record s { generator = record s.generator { counter = s.generator.counter + 1 } },
)

-- `NextSequence`; a disabled generator gives 0 and no error.
unfoldable pub next_sequence : Reply → Store → Option ℕ × Store
unfolding allocate_batch
next_sequence reply s =
    if s.generator.enabled
    then next_after
        (if leb s.generator.max_seq s.generator.counter then allocate_batch reply s else (true, s))
    else (some 0, s)

-- `ResetSequence`; whether it ended without an error.
abbrev reset_by : Reply → Store → Bool × Store
reset_by answered s =
    (true, record { generator = record s.generator { counter = 0; max_seq = 0 }; sequence = 0 })
reset_by refused s = (false, s)
reset_by unheard s = (false, record s { sequence = 0 })

unfoldable pub reset_sequence : Reply → Store → Bool × Store
reset_sequence reply s = if s.generator.enabled then reset_by reply s else (true, s)
