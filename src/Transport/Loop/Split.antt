-- ===== src/Transport/Loop/Split.antt =====
-- pkg/transport/receiver.go: `handleLoop` reads the header with one `conn.Read`, and drops what it
-- got where that is not the whole header. A frame whose header arrives in two pieces is lost.
use go_mongo_sync.Prelude.{
  ℕ, suc, ◌<◌, ◌≡◌, refl, ap, ◌∙◌, some, [], ◌∷◌, ◌++◌, length, arith, length-append,
}
use go_mongo_sync.Prelude.Bytes.{Bytes}
use go_mongo_sync.Transport.Protocol.{Frame, frame_header_size, encode_header}
use go_mongo_sync.Transport.Protocol.RoundTrip.{length-encode_header}
use go_mongo_sync.Transport.Loop.{
  bytes, Conn, read, Counters, fresh, skip, partial_header, turn, handle_loop, on_read,
}

module _ (crc64 : Bytes → ℕ) (max_batch_size : ℕ) where
  -- A read that returns fewer bytes than a header drops them and goes on with the next read.
  pub turn-short :
      (k : Counters) (b : Bytes) (c : Conn)
      → length b < frame_header_size
      → turn crc64 max_batch_size k (bytes b ∷ c) ≡ skip (partial_header (length b)) fresh c
  unfolding turn on_read read
  turn-short k b c h = ground arith

  handle_loop-short :
      (fuel : ℕ) (k : Counters) (b : Bytes) (c : Conn)
      → length b < frame_header_size
      → handle_loop crc64 max_batch_size (suc fuel) k (bytes b ∷ c)
        ≡ handle_loop crc64 max_batch_size fuel fresh c
  unfolding handle_loop
  handle_loop-short fuel k b c h = rw (turn-short k b c h, handle_loop)

  -- A frame's header that arrives in two nonempty pieces is never delivered: the loop ends with
  -- no frame, though every byte of it arrived.
  split_header_lost :
      (fuel : ℕ) (k : Counters) (f : Frame) (a b : Bytes)
      → a ++ b ≡ encode_header f.header
      → 0 < length a
      → 0 < length b
      → handle_loop crc64 max_batch_size (suc (suc (suc fuel))) k (bytes a ∷ (bytes b ∷ []))
        ≡ some []
  split_header_lost fuel k f a b e ha hb =
      handle_loop-short (suc (suc fuel)) k a _ (omega (arith, total, length-append a b))
      ∙ (handle_loop-short (suc fuel) fresh b [] (omega (arith, total, length-append a b))
          ∙ (unfold handle_loop turn on_read read in refl))
    where
      total : length (a ++ b) ≡ frame_header_size
      total = ap length e ∙ length-encode_header f.header
