-- ===== src/Transport/Protocol.antt =====
-- pkg/transport/protocol.go: the 32-byte frame header, frames, and the payloads of the
-- acknowledgement and resume messages. A byte string is a list of numbers; a `uint32` or `uint64`
-- field is a number whose range is stated by `InRange`. `crc64.Checksum` over the ECMA table comes
-- from Go's library and is a parameter.
pub mod MsgType
pub mod Flag
pub mod RoundTrip
pub mod Frames
use Prim.Native.Nat.{bit_and, bit_or}
use go_mongo_sync.Prelude.{
  ℕ, ◌+◌, ◌-◌, ◌*◌, ◌%◌, ◌^◌, ◌≤◌, ◌<◌, ◌≡◌, Bool, true, false, not, ◌||◌, List, [], ◌∷◌, ◌++◌, ltb,
  ◌==◌, if◌then◌else◌, length, get_or, replicate,
}
use go_mongo_sync.Prelude.Bytes.{Bytes, be_bytes, be_nat, slice}
use go_mongo_sync.Prelude.Result.{Result, ok, err}

abbrev pub protocol_version : ℕ
protocol_version = 1

abbrev pub frame_header_size : ℕ
frame_header_size = 32

abbrev pub max_frame_size : ℕ
max_frame_size = 64 * 1024 * 1024

pub record FrameHeader : Type 0 where
  pub frame_len : ℕ
  pub flags : ℕ
  pub msg_type : ℕ
  pub version : ℕ
  pub stream_id : ℕ
  pub batch_seq : ℕ
  pub payload_checksum : ℕ
  pub reserved : Bytes

pub record Frame : Type 0 where
  pub header : FrameHeader
  pub payload : Bytes

pub data ProtocolError : Type 0 where
  short_header : ℕ → ProtocolError
  unsupported_version : ℕ → ProtocolError
  invalid_frame_len : ℕ → ProtocolError
  frame_too_large : ℕ → ProtocolError
  unknown_msg_type : ℕ → ProtocolError
  short_ack : ℕ → ProtocolError
  short_resume : ℕ → ProtocolError

-- The buffer has 32 bytes and the fields fill it, so `Reserved` has no place on the wire.
unfoldable pub encode_header : FrameHeader → Bytes
encode_header h =
    be_bytes 4 h.frame_len
    ++ (h.flags
        ∷ h.msg_type
        ∷ (be_bytes 2 h.version
            ++ (be_bytes 8 h.stream_id
                ++ (be_bytes 8 h.batch_seq ++ be_bytes 8 h.payload_checksum))))

-- The fields at their places in the buffer.
unfoldable pub fields_of : Bytes → FrameHeader
fields_of buf = record {
  frame_len = be_nat (slice 0 4 buf);
  flags = get_or buf 4 0;
  msg_type = get_or buf 5 0;
  version = be_nat (slice 6 8 buf);
  stream_id = be_nat (slice 8 16 buf);
  batch_seq = be_nat (slice 16 24 buf);
  payload_checksum = be_nat (slice 24 32 buf);
  reserved = replicate 8 0;
}

unfoldable pub decode_header : Bytes → Result ProtocolError FrameHeader
unfolding fields_of
decode_header buf =
    if ltb (length buf) frame_header_size
    then err (short_header (length buf))
    else ok (fields_of buf)

-- The `switch` of `Validate`.
abbrev pub is_known : ℕ → Bool
is_known t =
    t == MsgType.doc_batch
    || t == MsgType.ack
    || t == MsgType.heartbeat
    || t == MsgType.resume_request
    || t == MsgType.resume_response
    || t == MsgType.control

unfoldable pub validate : FrameHeader → Result ProtocolError (Unit {0})
validate h =
    if not (h.version == protocol_version)
    then err (unsupported_version h.version)
    else if ltb h.frame_len frame_header_size
    then err (invalid_frame_len h.frame_len)
    else if ltb max_frame_size h.frame_len
    then err (frame_too_large h.frame_len)
    else if is_known h.msg_type
    then ok tt
    else err (unknown_msg_type h.msg_type)

unfoldable pub payload_size : FrameHeader → ℕ
payload_size h = if ltb h.frame_len frame_header_size then 0 else h.frame_len - frame_header_size

unfoldable pub is_compressed : FrameHeader → Bool
is_compressed h = not (bit_and h.flags Flag.compressed == 0)

unfoldable pub is_control : FrameHeader → Bool
is_control h = not (bit_and h.flags Flag.control == 0)

unfoldable pub is_last_in_batch : FrameHeader → Bool
is_last_in_batch h = not (bit_and h.flags Flag.last_in_batch == 0)

module _ (crc64 : Bytes → ℕ) where
  -- `uint32(FrameHeaderSize + len(payload))` keeps the low 32 bits.
  unfoldable pub new_frame : ℕ → ℕ → ℕ → Bytes → Frame
  new_frame msg_type stream_id batch_seq payload = record {
    header = record {
      frame_len = (frame_header_size + length payload) % 2 ^ 32;
      flags = 0;
      msg_type = msg_type;
      version = protocol_version;
      stream_id = stream_id;
      batch_seq = batch_seq;
      payload_checksum = crc64 payload;
      reserved = replicate 8 0;
    };
    payload = payload;
  }

  unfoldable pub new_doc_batch_frame : ℕ → ℕ → Bytes → Bool → Bool → Frame
  unfolding new_frame
  new_doc_batch_frame stream_id batch_seq payload compressed last_in_batch =
      let frame = new_frame MsgType.doc_batch stream_id batch_seq payload in
      let flags₁ =
        if compressed then bit_or frame.header.flags Flag.compressed else frame.header.flags in
      let flags₂ = if last_in_batch then bit_or flags₁ Flag.last_in_batch else flags₁ in
      record frame { header = record frame.header { flags = flags₂ } }

  unfoldable pub new_ack_frame : ℕ → ℕ → Frame
  unfolding new_frame
  new_ack_frame stream_id ack_up_to =
      new_frame MsgType.ack stream_id ack_up_to (be_bytes 8 stream_id ++ be_bytes 8 ack_up_to)

  unfoldable pub new_heartbeat_frame : Frame
  unfolding new_frame
  new_heartbeat_frame = new_frame MsgType.heartbeat 0 0 []

  unfoldable pub new_resume_request_frame : ℕ → ℕ → Frame
  unfolding new_frame
  new_resume_request_frame stream_id from_seq =
      new_frame MsgType.resume_request stream_id from_seq
        (be_bytes 8 stream_id ++ be_bytes 8 from_seq)

  unfoldable pub new_resume_response_frame : ℕ → ℕ → Bool → Frame
  unfolding new_frame
  new_resume_response_frame stream_id from_seq success =
      new_frame MsgType.resume_response stream_id from_seq
        (be_bytes 8 stream_id ++ (be_bytes 8 from_seq ++ ((if success then 1 else 0) ∷ [])))

  unfoldable pub verify_checksum : Frame → Bool
  verify_checksum f = crc64 f.payload == f.header.payload_checksum

unfoldable pub encode_frame : Frame → Bytes
unfolding encode_header
encode_frame f =
    if length f.payload == 0 then encode_header f.header else encode_header f.header ++ f.payload

pub record AckMessage : Type 0 where
  pub stream_id : ℕ
  pub ack_up_to : ℕ

unfoldable pub decode_ack_message : Bytes → Result ProtocolError AckMessage
decode_ack_message payload =
    if ltb (length payload) 16
    then err (short_ack (length payload))
    else ok
        (record { stream_id = be_nat (slice 0 8 payload); ack_up_to = be_nat (slice 8 16 payload) })

pub record ResumeMessage : Type 0 where
  pub stream_id : ℕ
  pub from_seq : ℕ
  pub success : Bool

unfoldable pub decode_resume_message : Bytes → Bool → Result ProtocolError ResumeMessage
decode_resume_message payload is_response =
    let min_size = if is_response then 17 else 16 in
    if ltb (length payload) min_size
    then err (short_resume (length payload))
    else ok (record {
      stream_id = be_nat (slice 0 8 payload);
      from_seq = be_nat (slice 8 16 payload);
      success =
          if is_response
          then (if ltb 16 (length payload) then not (get_or payload 16 0 == 0) else false)
          else false;
    })

-- Every field has the width of its Go type.
pub record InRange (h : FrameHeader) : Type 0 where
  pub frame_len_fits : h.frame_len < 256 ^ 4
  pub flags_fits : h.flags < 256
  pub msg_type_fits : h.msg_type < 256
  pub version_fits : h.version < 256 ^ 2
  pub stream_id_fits : h.stream_id < 256 ^ 8
  pub batch_seq_fits : h.batch_seq < 256 ^ 8
  pub payload_checksum_fits : h.payload_checksum < 256 ^ 8
