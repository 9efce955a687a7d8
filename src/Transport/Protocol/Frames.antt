-- ===== src/Transport/Protocol/Frames.antt =====
-- pkg/transport/protocol.go: the frames that `NewFrame` and its variants build are ones that
-- `Validate`, `PayloadSize` and `VerifyChecksum` accept.
use go_mongo_sync.Prelude.{ℕ, ◌+◌, ◌^◌, ◌≤◌, ◌<◌, ◌≡◌, refl, Bool, true, false, length, arith}
use go_mongo_sync.Prelude.Bytes.{Bytes}
use go_mongo_sync.Prelude.Result.{ok}
use go_mongo_sync.Transport.Protocol.{
  Frame, InRange, validate, max_frame_size, frame_header_size, new_frame, new_doc_batch_frame,
  is_known, verify_checksum, is_compressed, is_last_in_batch, is_control, payload_size,
}

-- What a peer checks of a frame and reads from it.
pub record IsSound (crc64 : Bytes → ℕ) (f : Frame) : Type 0 where
  pub valid : validate f.header ≡ ok tt
  pub sized : payload_size f.header ≡ length f.payload
  pub checked : verify_checksum crc64 f ≡ true
  pub in_range : InRange f.header

module _ (crc64 : Bytes → ℕ) (crc64-lt : (xs : Bytes) → crc64 xs < 256 ^ 8) where
  -- A frame of a known type that is not longer than the limit is sound.
  pub new_frame-IsSound :
      (msg_type stream_id batch_seq : ℕ) (payload : Bytes)
      → is_known msg_type ≡ true
      → stream_id < 256 ^ 8
      → batch_seq < 256 ^ 8
      → frame_header_size + length payload ≤ max_frame_size
      → IsSound crc64 (new_frame crc64 msg_type stream_id batch_seq payload)
  unfolding new_frame validate payload_size verify_checksum
  new_frame-IsSound t s b p k hs hb fits = record {
    valid = ground arith;
    sized = ground arith;
    checked = ground arith;
    in_range = record {
      frame_len_fits = omega arith;
      flags_fits = omega arith;
      msg_type_fits = ground arith;
      version_fits = omega arith;
      stream_id_fits = hs;
      batch_seq_fits = hb;
      payload_checksum_fits = crc64-lt p;
    };
  }

  -- If stream id and sequence number are 64-bit values and the frame is not longer than the limit,
  -- the frame of a document batch passes validation, has the payload size that its header says,
  -- passes the checksum test, and each field of its header fits the width the wire gives it.
  pub new_doc_batch_frame-IsSound :
      (stream_id batch_seq : ℕ) (payload : Bytes) (compressed last : Bool)
      → stream_id < 256 ^ 8
      → batch_seq < 256 ^ 8
      → frame_header_size + length payload ≤ max_frame_size
      → IsSound crc64 (new_doc_batch_frame crc64 stream_id batch_seq payload compressed last)
  unfolding new_doc_batch_frame validate payload_size verify_checksum
  new_doc_batch_frame-IsSound s b p c l hs hb fits = record {
    valid = ground arith;
    sized = ground arith;
    checked = ground arith;
    in_range = record {
      frame_len_fits = omega arith;
      flags_fits = flags_fit c l;
      msg_type_fits = omega arith;
      version_fits = omega arith;
      stream_id_fits = hs;
      batch_seq_fits = hb;
      payload_checksum_fits = crc64-lt p;
    };
  }
    where
      flags_fit : (c l : Bool) → (new_doc_batch_frame crc64 s b p c l).header.flags < 256
      flags_fit true true = omega arith
      flags_fit true false = omega arith
      flags_fit false true = omega arith
      flags_fit false false = omega arith

-- The flags of a document batch say whether it is compressed and whether it is the last frame of
-- its batch, and never that it is a control frame.
pub new_doc_batch_frame_flags :
    (crc64 : Bytes → ℕ) (stream_id batch_seq : ℕ) (payload : Bytes) (compressed last : Bool)
    → let h = (new_doc_batch_frame crc64 stream_id batch_seq payload compressed last).header in
      (is_compressed h ≡ compressed) × (is_last_in_batch h ≡ last) × (is_control h ≡ false)
unfolding new_doc_batch_frame is_compressed is_last_in_batch is_control
new_doc_batch_frame_flags crc64 s b p true true = (refl, refl, refl)
new_doc_batch_frame_flags crc64 s b p true false = (refl, refl, refl)
new_doc_batch_frame_flags crc64 s b p false true = (refl, refl, refl)
new_doc_batch_frame_flags crc64 s b p false false = (refl, refl, refl)
