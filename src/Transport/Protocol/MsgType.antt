-- ===== src/Transport/Protocol/MsgType.antt =====
-- pkg/transport/protocol.go: the `MsgType…` constants.
use Prim.Native.Nat.{ℕ}

abbrev pub doc_batch : ℕ
doc_batch = 0x01

abbrev pub ack : ℕ
ack = 0x02

abbrev pub heartbeat : ℕ
heartbeat = 0x03

abbrev pub resume_request : ℕ
resume_request = 0x04

abbrev pub resume_response : ℕ
resume_response = 0x05

abbrev pub control : ℕ
control = 0x06
