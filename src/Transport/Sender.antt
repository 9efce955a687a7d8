-- ===== src/Transport/Sender.antt =====
-- pkg/transport/sender.go: the sender's state of a stream, the sending of batches and the handling
-- of acknowledgements. `state.pendingBatches` is a list of sequence numbers with their encoded
-- frames. What the other goroutines do while a call waits is a list of events; the compressor
-- comes from another library and is a parameter. Retries and send times are kept by the code but
-- never read, and are left out.
pub mod Window
pub mod Acks
pub mod Sending
use go_mongo_sync.Prelude.{
  ℕ, zero, suc, ◌+◌, ◌-◌, ◌*◌, ◌/◌, ◌%◌, ◌^◌, Bool, true, false, ◌&&◌, ◌||◌, Option, none, some,
  List, [], ◌∷◌, ltb, leb, ◌==◌, if◌then◌else◌, length, take, drop,
}
use go_mongo_sync.Prelude.Bytes.{Bytes}
use go_mongo_sync.Prelude.Result.{Result, ok, err}
use go_mongo_sync.Transport.Protocol.{
  Frame, AckMessage, decode_ack_message, encode_frame, new_doc_batch_frame,
}
use go_mongo_sync.Transport.Payload.{batch_payload}

pub record StreamState : Type 0 where
  pub stream_id : ℕ
  pub next_seq : ℕ
  pub pending_batches : List (ℕ × Bytes)

pub record SenderConfig : Type 0 where
  pub max_batch_size : ℕ
  pub window_size : ℕ
  pub compression : Bool

pub record SenderStats : Type 0 where
  pub bytes_sent : ℕ
  pub batches_sent : ℕ
  pub documents_sent : ℕ
  pub error_count : ℕ
  pub compressed_bytes : ℕ

-- The part of the sender that the calls on one stream change: its state, the counters, and the
-- frames handed to the connections, the newest first.
pub record Sender : Type 0 where
  pub stream : StreamState
  pub stats : SenderStats
  pub written : List Frame

pub data SendError : Type 0 where
  closed : SendError
  empty_batch : SendError
  too_large : ℕ → SendError
  compression_failed : SendError
  window_timeout : SendError
  write_timeout : SendError
  shutting_down : SendError
  ack_timeout : ℕ → SendError

-- `hashStreamName`: djb2 in 64 bits.
hash_from : ℕ → Bytes → ℕ
hash_from hash [] = hash
hash_from hash (c ∷ cs) = hash_from ((hash * 32 % 2 ^ 64 + hash + c) % 2 ^ 64) cs

unfoldable pub hash_stream_name : Bytes → ℕ
unfolding hash_from
hash_stream_name stream = hash_from 5381 stream

-- The state that `getOrCreateStreamState` makes for a stream it does not know.
unfoldable pub new_stream_state : Bytes → StreamState
unfolding hash_stream_name
new_stream_state stream = record {
  stream_id = hash_stream_name stream;
  next_seq = 1;
  pending_batches = [];
}

-- The loop of `handleAck`: every batch up to the acknowledged one is taken off.
unfoldable pub remove_acked : ℕ → List (ℕ × Bytes) → List (ℕ × Bytes)
remove_acked up_to [] = []
remove_acked up_to ((seq, frame) ∷ ps) =
    let rest = remove_acked up_to ps in if leb seq up_to then rest else (seq, frame) ∷ rest

-- `handleAckOptimized` and `handleAck` for this stream; an acknowledgement of another stream's
-- number concerns another state.
unfoldable pub apply_ack : AckMessage → Sender → Sender
unfolding remove_acked
apply_ack ack s =
    let s' : Sender = record s {
      stream = record s.stream {
        pending_batches = remove_acked ack.ack_up_to s.stream.pending_batches;
      };
    } in
    if s.stream.stream_id == ack.stream_id then s' else s

unfoldable pub handle_ack : Bytes → Sender → Sender
unfolding apply_ack
handle_ack payload s = elim (decode_ack_message payload) [
  | err e ↦ record s { stats = record s.stats { error_count = s.stats.error_count + 1 } }
  | ok ack ↦ apply_ack ack s
]

unfoldable pub has_pending : ℕ → List (ℕ × Bytes) → Bool
has_pending n [] = false
has_pending n ((seq, frame) ∷ ps) = seq == n || has_pending n ps

-- What a waiting call meets: an acknowledgement that another goroutine handles, an old
-- notification or a tick, the end of its time, or the end of the sender.
pub data Event : Type 0 where
  acked : AckMessage → Event
  notified : Event
  timed_out : Event
  shutdown : Event

-- How a call ends, with the state it leaves.
pub data Sent : Type 0 where
  done : Sender → Sent
  failed : SendError → Sender → Sent
  waiting : Sender → Sent

-- `waitForWindow`, with the events that are left for what follows it.
pub data Windowed : Type 0 where
  opened : Sender → Windowed
  gave_up : SendError → Sender → Windowed
  waiting : Sender → Windowed

unfoldable pub wait_for_window : ℕ → Sender → List Event → Windowed
unfolding apply_ack
wait_for_window window s [] =
    if ltb (length s.stream.pending_batches) window then opened s else waiting s
wait_for_window window s (acked a ∷ es) =
    let rest = wait_for_window window (apply_ack a s) es in
    if ltb (length s.stream.pending_batches) window then opened s else rest
wait_for_window window s (notified ∷ es) =
    let rest = wait_for_window window s es in
    if ltb (length s.stream.pending_batches) window then opened s else rest
wait_for_window window s (timed_out ∷ es) =
    if ltb (length s.stream.pending_batches) window then opened s else gave_up window_timeout s
wait_for_window window s (shutdown ∷ es) =
    if ltb (length s.stream.pending_batches) window then opened s else gave_up shutting_down s

-- How the hand-over of a frame to a connection ends.
pub data HandOver : Type 0 where
  taken : HandOver
  timeout : HandOver
  stopped : HandOver

module _ (crc64 : Bytes → ℕ) (compress : Bytes → Option Bytes) (config : SenderConfig)
    (stream : Bytes) where
  -- The payload and whether it is compressed: only where that saves a tenth. The float product
  -- `float64(len)*0.9`, cut to a whole number, is `len * 9 / 10`.
  compressed_payload : Bytes → Option Bytes → Option (Bytes × Bool)
  compressed_payload payload none = none
  compressed_payload payload (some c) =
      if ltb (length c) (length payload * 9 / 10) then some (c, true) else some (payload, false)

  choose_payload : Bytes → Option (Bytes × Bool)
  unfolding compressed_payload
  choose_payload payload =
      if config.compression
      then compressed_payload payload (compress payload)
      else some (payload, false)

  count_compressed : Bytes → Bool → Sender → Sender
  count_compressed payload true s = record s {
    stats = record s.stats { compressed_bytes = s.stats.compressed_bytes + length payload };
  }
  count_compressed payload false s = s

  -- From the pending entry to the end of `sendStandardBatch`.
  unfoldable pub hand_over : Frame → List Bytes → HandOver → Sender → Sent
  hand_over frame docs h s =
      let s' : Sender = record s {
        stream = record s.stream {
          pending_batches = (frame.header.batch_seq, encode_frame frame) ∷ s.stream.pending_batches;
        };
      } in
      let s'' : Sender = record s' {
        stats = record s'.stats {
          bytes_sent = s'.stats.bytes_sent + length frame.payload;
          batches_sent = s'.stats.batches_sent + 1;
          documents_sent = s'.stats.documents_sent + length docs;
        };
        written = frame ∷ s'.written;
      } in
      elim h [
        | taken ↦ done s''
        | stopped ↦ failed shutting_down s'
        | timeout ↦ failed write_timeout s'
      ]

  after_window : Frame → List Bytes → HandOver → Windowed → Sent
  unfolding hand_over
  after_window frame docs h (opened s) = hand_over frame docs h s
  after_window frame docs h (gave_up e s) = failed e s
  after_window frame docs h (Windowed.waiting s) = Sent.waiting s

  -- The number is taken before the window is waited for.
  send_chosen : List Bytes → Bool → List Event → HandOver → Sender → Option (Bytes × Bool) → Sent
  unfolding count_compressed after_window
  send_chosen docs async es h s none = failed compression_failed s
  send_chosen docs async es h s (some (payload, compressed)) =
      let seq = s.stream.next_seq in
      let s' =
        count_compressed payload compressed
          (record s { stream = record s.stream { next_seq = (seq + 1) % 2 ^ 64 } }) in
      let frame = new_doc_batch_frame crc64 s.stream.stream_id seq payload compressed true in
      if async
      then hand_over frame docs h s'
      else after_window frame docs h (wait_for_window config.window_size s' es)

  -- `sendStandardBatch`.
  unfoldable pub send_standard_batch : List Bytes → Bool → List Event → HandOver → Sender → Sent
  unfolding choose_payload send_chosen
  send_standard_batch docs async es h s =
      let payload = batch_payload stream docs in
      if ltb config.max_batch_size (length payload)
      then failed (too_large (length payload)) s
      else send_chosen docs async es h s (choose_payload payload)

  abbrev pub chunk_size : ℕ
  chunk_size = 5000

  abbrev pub large_batch : ℕ
  large_batch = 10000

  and_then : Sent → (Sender → Sent) → Sent
  and_then (done s) k = k s
  and_then (failed e s) k = failed e s
  and_then (Sent.waiting s) k = Sent.waiting s

  -- `sendLargeBatchStreaming`: a chunk for each entry of the script, which says what each meets.
  unfoldable pub send_chunks : List (List Event × HandOver) → List Bytes → Bool → Sender → Sent
  unfolding and_then
  send_chunks [] docs async s = if length docs == 0 then done s else Sent.waiting s
  send_chunks ((es, h) ∷ script) docs async s =
      if length docs == 0
      then done s
      else and_then (send_standard_batch (take chunk_size docs) async es h s)
          (send_chunks script (drop chunk_size docs) async)

  first_of_script : List (List Event × HandOver) → List Bytes → Bool → Sender → Sent
  first_of_script [] docs async s = Sent.waiting s
  first_of_script ((es, h) ∷ script) docs async s = send_standard_batch docs async es h s

  -- `sendBatch`.
  unfoldable pub send_batch :
      Bool → List (List Event × HandOver) → List Bytes → Bool → Sender → Sent
  unfolding send_chunks first_of_script
  send_batch is_closed script docs async s =
      if is_closed
      then failed closed s
      else if length docs == 0
      then failed empty_batch s
      else if ltb large_batch (length docs)
      then send_chunks script docs async s
      else first_of_script script docs async s

-- The loop of `sendBatchWithAck` that waits for the batch `seq`: done when the batch is no longer
-- pending, or when an acknowledgement at or past its number is heard of.
unfoldable pub wait_for_ack : ℕ → Sender → List Event → Sent
unfolding apply_ack
wait_for_ack seq s [] = if has_pending seq s.stream.pending_batches then Sent.waiting s else done s
wait_for_ack seq s (acked a ∷ es) =
    let s' = apply_ack a s in
    let rest = wait_for_ack seq s' es in
    if has_pending seq s.stream.pending_batches
    then (if s.stream.stream_id == a.stream_id && leb seq a.ack_up_to then done s' else rest)
    else done s
wait_for_ack seq s (notified ∷ es) =
    let rest = wait_for_ack seq s es in
    if has_pending seq s.stream.pending_batches then rest else done s
wait_for_ack seq s (timed_out ∷ es) =
    if has_pending seq s.stream.pending_batches then failed (ack_timeout seq) s else done s
wait_for_ack seq s (shutdown ∷ es) =
    if has_pending seq s.stream.pending_batches then failed shutting_down s else done s
