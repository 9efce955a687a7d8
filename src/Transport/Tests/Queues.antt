-- ===== src/Transport/Tests/Queues.antt =====
-- Runs of the ring buffer.
use go_mongo_sync.Prelude.{refl, [], ◌∷◌, ◌++◌, arith}
use go_mongo_sync.Transport.Queue.{put}
use go_mongo_sync.Transport.Queue.Refine.{Represents, put-Represents}
use go_mongo_sync.Transport.Queue.Waiting.{IsValid}
use go_mongo_sync.Transport.Tests.Samples.{queue, full_queue, item}

pub full_queue-Represents : Represents full_queue (item 1 ∷ item 2 ∷ [])
full_queue-Represents = record {
  capacity_pos = omega arith;
  buffer_length = refl;
  read_fits = omega arith;
  size_eq = refl;
  bounded = omega arith;
  write_eq = refl;
  window = (refl, (refl, tt));
}

queue-Represents : Represents queue []
queue-Represents = record {
  capacity_pos = omega arith;
  buffer_length = refl;
  read_fits = omega arith;
  size_eq = refl;
  bounded = omega arith;
  write_eq = refl;
  window = tt;
}

full_queue-IsValid : IsValid full_queue
full_queue-IsValid = record {
  items = item 1 ∷ item 2 ∷ [];
  represents = full_queue-Represents;
  balanced = refl;
}

put-Represents_example : Represents (put queue (item 1)) ([] ++ (item 1 ∷ []))
put-Represents_example = put-Represents queue [] (item 1) queue-Represents (omega arith)
