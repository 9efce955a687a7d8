-- ===== src/Transport/Protocol/Flag.antt =====
-- pkg/transport/protocol.go: the `Flag…` bits.
use Prim.Native.Nat.{ℕ}

abbrev pub compressed : ℕ
compressed = 0x01

abbrev pub control : ℕ
control = 0x02

abbrev pub last_in_batch : ℕ
last_in_batch = 0x04
