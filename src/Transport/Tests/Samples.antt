-- ===== src/Transport/Tests/Samples.antt =====
-- The inputs of the runs.
use go_mongo_sync.Prelude.{ℕ, ◌+◌, ◌%◌, ◌^◌, ◌<◌, refl, false, Option, none, some, [], ◌∷◌, arith}
use go_mongo_sync.Prelude.Bytes.{Bytes}
use go_mongo_sync.Transport.Payload.RoundTrip.{IsDocument}
use go_mongo_sync.Transport.Queue.{Queue}
use go_mongo_sync.Transport.Receiver.{BatchQueueItem, Receiver, ReceiverStats, Decompressors}
use go_mongo_sync.Transport.Sender.{Sender, SenderConfig, SenderStats}

abbrev sum_bytes : Bytes → ℕ
sum_bytes [] = 0
sum_bytes (b ∷ bs) = b + sum_bytes bs

-- A checksum in 64 bits.
abbrev pub crc : Bytes → ℕ
crc xs = sum_bytes xs % 256 ^ 8

pub crc-lt : (xs : Bytes) → crc xs < 256 ^ 8
crc-lt xs = omega arith

abbrev pub no_compress : Bytes → Option Bytes
no_compress b = none

-- "db.c"
abbrev pub stream : Bytes
stream = 100 ∷ 98 ∷ 46 ∷ 99 ∷ []

-- The empty BSON document.
abbrev pub doc : Bytes
doc = 5 ∷ 0 ∷ 0 ∷ 0 ∷ 0 ∷ []

pub doc-IsDocument : IsDocument doc
doc-IsDocument = record { headed = omega arith; sized = refl }

abbrev pub config : SenderConfig
config = record { max_batch_size = 1000; window_size = 2; compression = false }

abbrev no_sends : SenderStats
no_sends = record {
  bytes_sent = 0;
  batches_sent = 0;
  documents_sent = 0;
  error_count = 0;
  compressed_bytes = 0;
}

abbrev pub sender : Sender
sender = record {
  stream = record { stream_id = 7; next_seq = 3; pending_batches = (2, []) ∷ (1, []) ∷ [] };
  stats = no_sends;
  written = [];
}

abbrev pub label : ℕ → Bytes
label n = n ∷ []

abbrev pub no_decompressors : Decompressors
no_decompressors = []

abbrev no_receipts : ReceiverStats
no_receipts = record {
  bytes_received = 0;
  batches_received = 0;
  documents_received = 0;
  error_count = 0;
  decompressed_bytes = 0;
}

abbrev pub queue : Queue BatchQueueItem
queue = record {
  buffer = none ∷ none ∷ [];
  capacity = 2;
  read_idx = 0;
  write_idx = 0;
  size = 0;
  stats = record {
    enqueued_total = 0;
    dequeued_total = 0;
    dropped_total = 0;
    high_water_reached = 0;
    full_block_count = 0;
  };
}

abbrev pub item : ℕ → BatchQueueItem
item n = record { stream_name = stream; batch_seq = n; documents = [] }

-- A queue of two places with the batches 1 and 2.
abbrev pub full_queue : Queue BatchQueueItem
full_queue = record queue {
  buffer = some (item 1) ∷ some (item 2) ∷ [];
  size = 2;
  stats = record queue.stats { enqueued_total = 2 };
}

abbrev pub receiver : Receiver
receiver = record {
  stream_states = [];
  batch_queue = queue;
  stats = no_receipts;
  acks = [];
  checkpoints = [];
}

abbrev pub full_receiver : Receiver
full_receiver = record receiver { batch_queue = full_queue }
