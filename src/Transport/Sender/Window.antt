-- ===== src/Transport/Sender/Window.antt =====
-- pkg/transport/sender.go: the sliding window and the sequence numbers.
use go_mongo_sync.Prelude.{
  ℕ, suc, ◌+◌, ◌^◌, ◌≤◌, ◌<◌, ◌≡◌, ◌∙◌, Bool, true, false, Bool-cases, inl, inr, Option, none, some,
  List, [], ◌∷◌, ltb, leb, ◌==◌, if◌then◌else◌, arith, ltb→lt, length,
}
use go_mongo_sync.Prelude.Bytes.{Bytes}
use go_mongo_sync.Transport.Protocol.{AckMessage, Frame, new_doc_batch_frame}
use go_mongo_sync.Transport.Payload.{batch_payload}
use go_mongo_sync.Transport.Sender.{
  Sender, SenderConfig, remove_acked, apply_ack, Event, acked, notified, timed_out, shutdown,
  Windowed, opened, gave_up, wait_for_window, Sent, done, failed, HandOver, taken, timeout, stopped,
  hand_over, after_window, send_chosen, send_standard_batch, count_compressed,
}

-- The numbers of the pending batches fall from the front on, below `bound`.
abbrev pub Falling : ℕ → List (ℕ × Bytes) → Type 0
Falling bound [] = Unit
Falling bound ((seq, d) ∷ ps) = (seq < bound) × Falling seq ps

Falling-le : (m n : ℕ) (ps : List (ℕ × Bytes)) → m ≤ n → Falling m ps → Falling n ps
Falling-le m n [] le h = tt
Falling-le m n ((seq, d) ∷ ps) le h = (omega arith, h.1)

Falling-remove_acked :
    (up_to bound : ℕ) (ps : List (ℕ × Bytes))
    → Falling bound ps
    → Falling bound (remove_acked up_to ps)
unfolding remove_acked
Falling-remove_acked up_to bound [] h = tt
Falling-remove_acked up_to bound ((seq, d) ∷ ps) h = elim (Bool-cases (leb seq up_to)) [
  | inl e ↦ rw e (Falling-remove_acked up_to bound ps (Falling-le seq bound ps (omega arith) h.1))
  | inr e ↦ rw e (h.0, Falling-remove_acked up_to seq ps h.1)
]

Falling-apply_ack :
    (bound : ℕ) (a : AckMessage) (s : Sender)
    → Falling bound s.stream.pending_batches
    → Falling bound (apply_ack a s).stream.pending_batches
unfolding apply_ack
Falling-apply_ack bound a s h = elim (Bool-cases (s.stream.stream_id == a.stream_id)) [
  | inl e ↦ rw e (Falling-remove_acked a.ack_up_to bound s.stream.pending_batches h)
  | inr e ↦ rw e h
]

next_seq-apply_ack :
    (a : AckMessage) (s : Sender) → (apply_ack a s).stream.next_seq ≡ s.stream.next_seq
unfolding apply_ack
next_seq-apply_ack a s = ground arith

-- The stream's next number is `next`, and the pending batches are numbered below `bound`.
record Between (bound next : ℕ) (s : Sender) : Type 0 where
  falling : Falling bound s.stream.pending_batches
  next_is : s.stream.next_seq ≡ next

Between-apply_ack :
    (bound next : ℕ) (a : AckMessage) (s : Sender)
    → Between bound next s
    → Between bound next (apply_ack a s)
Between-apply_ack bound next a s b = record {
  falling = Falling-apply_ack bound a s b.falling;
  next_is = next_seq-apply_ack a s ∙ b.next_is;
}

abbrev AfterWindow : ℕ → (Sender → Type 0) → Windowed → Type 0
AfterWindow window P (opened s) = P s × (length s.stream.pending_batches < window)
AfterWindow window P (gave_up e s) = P s
AfterWindow window P (Windowed.waiting s) = P s

module _ (P : Sender → Type 0) (keep : (a : AckMessage) (s : Sender) → P s → P (apply_ack a s))
    (window : ℕ) where
  room_or :
      (s : Sender) (otherwise : Windowed)
      → P s
      → AfterWindow window P otherwise
      → AfterWindow window P
          (if ltb (length s.stream.pending_batches) window then opened s else otherwise)
  room_or s otherwise h o = elim (Bool-cases (ltb (length s.stream.pending_batches) window)) [
    | inl e ↦ rw e (h, ltb→lt (length s.stream.pending_batches) window e)
    | inr e ↦ rw e o
  ]

  wait_for_window-AfterWindow :
      (s : Sender) (es : List Event) → P s → AfterWindow window P (wait_for_window window s es)
  unfolding wait_for_window
  wait_for_window-AfterWindow s [] h = room_or s _ h h
  wait_for_window-AfterWindow s (acked a ∷ es) h =
      room_or s _ h (wait_for_window-AfterWindow (apply_ack a s) es (keep a s h))
  wait_for_window-AfterWindow s (notified ∷ es) h =
      room_or s _ h (wait_for_window-AfterWindow s es h)
  wait_for_window-AfterWindow s (timed_out ∷ es) h = room_or s _ h h
  wait_for_window-AfterWindow s (shutdown ∷ es) h = room_or s _ h h

-- The pending batches have different numbers, all below the next one.
abbrev pub IsOrdered : Sender → Type 0
IsOrdered s = Falling s.stream.next_seq s.stream.pending_batches

-- What a call leaves, however it ends, and more when it ends well.
abbrev pub AfterSend : (Sender → Type 0) → (Sender → Type 0) → Sent → Type 0
AfterSend P Q (done s) = P s × Q s
AfterSend P Q (failed e s) = P s
AfterSend P Q (Sent.waiting s) = P s

module _ (crc64 : Bytes → ℕ) (compress : Bytes → Option Bytes) (config : SenderConfig)
    (stream : Bytes) where
  -- No more batches are pending than the window holds.
  abbrev pub InWindow : Sender → Type 0
  InWindow s = length s.stream.pending_batches ≤ config.window_size

  hand_over-AfterSend :
      (frame : Frame) (docs : List Bytes) (h : HandOver) (s : Sender)
      → Between frame.header.batch_seq (suc frame.header.batch_seq) s
      → length s.stream.pending_batches < config.window_size
      → AfterSend IsOrdered InWindow (hand_over crc64 compress config stream frame docs h s)
  unfolding hand_over
  hand_over-AfterSend frame docs taken s b lt = ((omega (arith, b.next_is), b.falling), omega arith)
  hand_over-AfterSend frame docs timeout s b lt = (omega (arith, b.next_is), b.falling)
  hand_over-AfterSend frame docs stopped s b lt = (omega (arith, b.next_is), b.falling)

  Between-IsOrdered : (seq : ℕ) (s : Sender) → Between seq (suc seq) s → IsOrdered s
  Between-IsOrdered seq s b =
      Falling-le seq s.stream.next_seq s.stream.pending_batches (omega (arith, b.next_is)) b.falling

  after_window-AfterSend :
      (frame : Frame) (docs : List Bytes) (h : HandOver) (w : Windowed)
      → AfterWindow config.window_size
          (Between frame.header.batch_seq (suc frame.header.batch_seq))
          w
      → AfterSend IsOrdered InWindow (after_window crc64 compress config stream frame docs h w)
  unfolding after_window
  after_window-AfterSend frame docs h (opened s) b = hand_over-AfterSend frame docs h s b.0 b.1
  after_window-AfterSend frame docs h (gave_up e s) b = Between-IsOrdered frame.header.batch_seq s b
  after_window-AfterSend frame docs h (Windowed.waiting s) b =
      Between-IsOrdered frame.header.batch_seq s b

  count_compressed-Between :
      (bound next : ℕ) (p : Bytes) (c : Bool) (s : Sender)
      → Between bound next s
      → Between bound next (count_compressed crc64 compress config stream p c s)
  unfolding count_compressed
  count_compressed-Between bound next p true s b = record {
    falling = b.falling;
    next_is = b.next_is;
  }
  count_compressed-Between bound next p false s b = b

  send_chosen-AfterSend :
      (docs : List Bytes) (es : List Event) (h : HandOver) (s : Sender)
      (chosen : Option (Bytes × Bool))
      → IsOrdered s
      → s.stream.next_seq + 1 < 2 ^ 64
      → AfterSend IsOrdered InWindow
          (send_chosen crc64 compress config stream docs false es h s chosen)
  unfolding send_chosen new_doc_batch_frame
  send_chosen-AfterSend docs es h s none o fits = o
  send_chosen-AfterSend docs es h s (some (payload, c)) o fits = after_window-AfterSend _ docs h _ (
      wait_for_window-AfterWindow (Between s.stream.next_seq (suc s.stream.next_seq))
        (Between-apply_ack s.stream.next_seq (suc s.stream.next_seq)) config.window_size _ es
        (count_compressed-Between s.stream.next_seq (suc s.stream.next_seq) payload c _
          (record { falling = o; next_is = omega arith })))

  -- Sending a batch and waiting for the window keeps the pending batches numbered apart and below
  -- the next number, whatever acknowledgements come meanwhile and however the call ends. When it
  -- ends well, no more batches are pending than the window holds.
  pub send_standard_batch-IsOrdered :
      (docs : List Bytes) (es : List Event) (h : HandOver) (s : Sender)
      → IsOrdered s
      → s.stream.next_seq + 1 < 2 ^ 64
      → AfterSend IsOrdered InWindow
          (send_standard_batch crc64 compress config stream docs false es h s)
  unfolding send_standard_batch
  send_standard_batch-IsOrdered docs es h s o fits =
      elim (Bool-cases (ltb config.max_batch_size (length (batch_payload stream docs)))) [
        | inl e ↦ rw e o
        | inr e ↦ rw e (send_chosen-AfterSend docs es h s _ o fits)
      ]
