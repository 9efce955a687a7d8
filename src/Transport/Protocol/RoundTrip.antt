-- ===== src/Transport/Protocol/RoundTrip.antt =====
-- pkg/transport/protocol.go: what one side encodes the other side decodes.
use go_mongo_sync.Prelude.{
  ℕ, ◌^◌, ◌≤◌, ◌<◌, ◌≡◌, refl, ◌↔◌, Bool, true, false, ◌++◌, replicate, length, le→ltb,
  length-append, arith,
}
use go_mongo_sync.Prelude.Bytes.{Bytes, be_nat-be_bytes}
use go_mongo_sync.Prelude.Result.{ok}
use go_mongo_sync.Transport.Protocol.{
  FrameHeader, InRange, encode_header, decode_header, fields_of, validate, protocol_version,
  max_frame_size, frame_header_size, new_ack_frame, new_resume_response_frame, decode_ack_message,
  decode_resume_message, is_known,
}

pub length-encode_header : (h : FrameHeader) → length (encode_header h) ≡ frame_header_size
unfolding encode_header
length-encode_header h = refl

decode_header-long :
    (buf : Bytes) → frame_header_size ≤ length buf → decode_header buf ≡ ok (fields_of buf)
unfolding decode_header fields_of
decode_header-long buf h = rw (le→ltb (length buf) frame_header_size h)

header_at_least :
    (h : FrameHeader) (rest : Bytes) → frame_header_size ≤ length (encode_header h ++ rest)
header_at_least h rest = omega (arith, length-append (encode_header h) rest, length-encode_header h)

-- A header in range that is encoded and read back, with more bytes behind it, is itself but for
-- the reserved bytes, which read as zeros.
pub decode_header-encode_header :
    (h : FrameHeader) (rest : Bytes)
    → InRange h
    → decode_header (encode_header h ++ rest) ≡ ok (record h { reserved = replicate 8 0 })
unfolding encode_header fields_of
decode_header-encode_header h rest r = rw (decode_header-long _ (header_at_least h rest)) λ i.
    ok (record {
      frame_len = be_nat-be_bytes 4 h.frame_len r.frame_len_fits i;
      flags = h.flags;
      msg_type = h.msg_type;
      version = be_nat-be_bytes 2 h.version r.version_fits i;
      stream_id = be_nat-be_bytes 8 h.stream_id r.stream_id_fits i;
      batch_seq = be_nat-be_bytes 8 h.batch_seq r.batch_seq_fits i;
      payload_checksum = be_nat-be_bytes 8 h.payload_checksum r.payload_checksum_fits i;
      reserved = replicate 8 0;
    })

-- `Validate` accepts exactly the headers of protocol version 1 whose length lies between the
-- header's size and 64 MiB and whose message type is one of the six.
validate_iff :
    (h : FrameHeader)
    → (validate h ≡ ok tt) ↔ (
        (h.version ≡ protocol_version)
        × (frame_header_size ≤ h.frame_len)
        × (h.frame_len ≤ max_frame_size)
        × (is_known h.msg_type ≡ true))
unfolding validate
validate_iff h = ground arith

module _ (crc64 : Bytes → ℕ) where
  -- The payload of an acknowledgement frame decodes to its stream and its sequence number.
  pub decode_ack_message-new_ack_frame :
      (stream_id ack_up_to : ℕ)
      → stream_id < 256 ^ 8
      → ack_up_to < 256 ^ 8
      → decode_ack_message (new_ack_frame crc64 stream_id ack_up_to).payload
        ≡ ok (record { stream_id = stream_id; ack_up_to = ack_up_to })
  unfolding decode_ack_message new_ack_frame
  decode_ack_message-new_ack_frame s a hs ha = cc (be_nat-be_bytes 8 s hs, be_nat-be_bytes 8 a ha)

  -- The payload of a resume response decodes to its stream, its sequence number and its success,
  -- if the numbers are 64-bit values.
  decode_resume_message-response :
      (stream_id from_seq : ℕ) (success : Bool)
      → stream_id < 256 ^ 8
      → from_seq < 256 ^ 8
      → decode_resume_message
          (new_resume_response_frame crc64 stream_id from_seq success).payload
          true
        ≡ ok (record { stream_id = stream_id; from_seq = from_seq; success = success })
  unfolding decode_resume_message new_resume_response_frame
  decode_resume_message-response s a true hs ha =
      cc (be_nat-be_bytes 8 s hs, be_nat-be_bytes 8 a ha)
  decode_resume_message-response s a false hs ha =
      cc (be_nat-be_bytes 8 s hs, be_nat-be_bytes 8 a ha)
