-- ===== src/Transport/Sender/Acks.antt =====
-- pkg/transport/sender.go: which batches an acknowledgement takes off the pending ones, and what a
-- caller of `SendBatch` is told.
use go_mongo_sync.Prelude.{
  ℕ, ◌≤◌, ◌≡◌, true, false, List, [], ◌∷◌, leb, if◌then◌else◌, arith, length,
}
use go_mongo_sync.Prelude.Bytes.{Bytes}
use go_mongo_sync.Transport.Protocol.{AckMessage}
use go_mongo_sync.Transport.Sender.{
  Sender, remove_acked, apply_ack, has_pending, Event, acked, done, wait_for_ack,
}

-- After an acknowledgement up to `m` exactly the batches above `m` that were pending are pending.
has_pending-remove_acked :
    (n m : ℕ) (ps : List (ℕ × Bytes))
    → has_pending n (remove_acked m ps) ≡ (if leb n m then false else has_pending n ps)
unfolding has_pending remove_acked
has_pending-remove_acked n m [] = ground arith
has_pending-remove_acked n m ((seq, d) ∷ ps) = ground (arith, has_pending-remove_acked n m ps)

pub length-remove_acked : (m : ℕ) (ps : List (ℕ × Bytes)) → length (remove_acked m ps) ≤ length ps
unfolding remove_acked
length-remove_acked m [] = omega arith
length-remove_acked m ((seq, d) ∷ ps) = ground (arith, length-remove_acked m ps)

-- A caller that waits for the batch `n` is told that it was received as soon as an
-- acknowledgement of any later batch `m` of the stream is handled, and `n` is no longer pending.
-- The receiver acknowledges each batch by itself, so `m` may have overtaken `n`.
pub wait_for_ack-later :
    (s : Sender) (n : ℕ) (a : AckMessage) (es : List Event)
    → has_pending n s.stream.pending_batches ≡ true
    → s.stream.stream_id ≡ a.stream_id
    → n ≤ a.ack_up_to
    → (wait_for_ack n s (acked a ∷ es) ≡ done (apply_ack a s))
      × (has_pending n (apply_ack a s).stream.pending_batches ≡ false)
unfolding wait_for_ack apply_ack
wait_for_ack-later s n a es p e le = (
  ground (arith, p),
  ground (arith, has_pending-remove_acked n a.ack_up_to s.stream.pending_batches),
)
