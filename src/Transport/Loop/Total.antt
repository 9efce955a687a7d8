-- ===== src/Transport/Loop/Total.antt =====
-- pkg/transport/receiver.go: every round of `handleLoop` consumes some of the connection, so the
-- loop ends on every finite run of arrivals.
use go_mongo_sync.Prelude.{
  ℕ, ◌-◌, ◌≤◌, ◌<◌, Bool-cases, inl, inr, Option, none, some, [], ◌∷◌, length, arith, length-drop,
  ltb, leb, ◌==◌,
}
use go_mongo_sync.Prelude.Bytes.{Bytes}
use go_mongo_sync.Prelude.Result.{Result, ok, err}
use go_mongo_sync.Transport.Protocol.{
  FrameHeader, ProtocolError, frame_header_size, decode_header, validate, payload_size,
  verify_checksum,
}
use go_mongo_sync.Transport.Loop.{
  bytes, timeout, failure, Conn, ReadResult, got, at_eof, failed, read, read_payload, prepend,
  Counters, Turn, closed, skip, message, turn, conn_size, on_payload, on_valid, on_decoded, on_read,
}

abbrev PayloadShrinks : ℕ → Option (Bytes × Conn) → Type 0
PayloadShrinks n none = Unit
PayloadShrinks n (some (p, c)) = conn_size c ≤ n

PayloadShrinks-prepend :
    (n m : ℕ) (b : Bytes) (o : Option (Bytes × Conn))
    → n ≤ m
    → PayloadShrinks n o
    → PayloadShrinks m (prepend b o)
PayloadShrinks-prepend n m b none le h = tt
PayloadShrinks-prepend n m b (some (p, c)) le h = omega arith

read_payload-shrinks : (n : ℕ) (c : Conn) → PayloadShrinks (conn_size c) (read_payload n c)
unfolding read_payload conn_size
read_payload-shrinks n [] = ground arith
read_payload-shrinks n (timeout ∷ c) = ground arith
read_payload-shrinks n (failure ∷ c) = ground arith
read_payload-shrinks n (bytes b ∷ c) = elim (Bool-cases (n == 0)) [
  | inl z ↦ rw z (omega arith)
  | inr nz ↦ elim (Bool-cases (leb (length b) n)) [
    | inl whole ↦
        rw (nz, whole)
          (PayloadShrinks-prepend (conn_size c) _ b _ (omega arith)
            (read_payload-shrinks (n - length b) c))
    | inr part ↦ rw (nz, part) (omega (arith, length-drop n b))
  ]
]

abbrev ReadShrinks : ℕ → ReadResult → Type 0
ReadShrinks n at_eof = Unit
ReadShrinks n failed = Unit
ReadShrinks n (ReadResult.timed_out c) = conn_size c < n
ReadShrinks n (got b c) = conn_size c < n

read-shrinks : (n : ℕ) (c : Conn) → 0 < n → ReadShrinks (conn_size c) (read n c)
unfolding read conn_size
read-shrinks n [] h = tt
read-shrinks n (timeout ∷ c) h = omega arith
read-shrinks n (failure ∷ c) h = tt
read-shrinks n (bytes b ∷ c) h = elim (Bool-cases (leb (length b) n)) [
  | inl whole ↦ rw whole (omega arith)
  | inr part ↦ rw part (ground (arith, length-drop n b))
]

abbrev TurnShrinks : ℕ → Turn → Type 0
TurnShrinks n closed = Unit
TurnShrinks n (skip _ _ c) = conn_size c < n
TurnShrinks n (message _ c) = conn_size c < n

module _ (crc64 : Bytes → ℕ) (max_batch_size : ℕ) (n : ℕ) where
  on_payload-shrinks :
      (h : FrameHeader) (m : ℕ) (o : Option (Bytes × Conn))
      → m < n
      → PayloadShrinks m o
      → TurnShrinks n (on_payload crc64 max_batch_size h o)
  unfolding on_payload
  on_payload-shrinks h m none le s = tt
  on_payload-shrinks h m (some (p, c)) le s =
      elim (Bool-cases (verify_checksum crc64 (record { header = h; payload = p }))) [
        | inl e ↦ rw e (omega arith)
        | inr e ↦ rw e (omega arith)
      ]

  on_valid-shrinks :
      (h : FrameHeader) (c : Conn) (v : Result ProtocolError (Unit {0}))
      → conn_size c < n
      → TurnShrinks n (on_valid crc64 max_batch_size h c v)
  unfolding on_valid
  on_valid-shrinks h c (err e) le = le
  on_valid-shrinks h c (ok _) le = elim (Bool-cases (ltb max_batch_size (payload_size h))) [
    | inl e ↦ rw e le
    | inr e ↦
        rw e (on_payload-shrinks h (conn_size c) _ le (read_payload-shrinks (payload_size h) c))
  ]

  on_decoded-shrinks :
      (c : Conn) (d : Result ProtocolError FrameHeader)
      → conn_size c < n
      → TurnShrinks n (on_decoded crc64 max_batch_size c d)
  unfolding on_decoded
  on_decoded-shrinks c (err e) le = le
  on_decoded-shrinks c (ok h) le = on_valid-shrinks h c (validate h) le

  on_read-shrinks :
      (k : Counters) (r : ReadResult)
      → ReadShrinks n r
      → TurnShrinks n (on_read crc64 max_batch_size k r)
  unfolding on_read
  on_read-shrinks k at_eof s = tt
  on_read-shrinks k failed s = tt
  on_read-shrinks k (ReadResult.timed_out c) s = ground arith
  on_read-shrinks k (got b c) s = elim (Bool-cases (length b == frame_header_size)) [
    | inl e ↦ rw e (on_decoded-shrinks c (decode_header b) s)
    | inr e ↦ rw e s
  ]

module _ (crc64 : Bytes → ℕ) (max_batch_size : ℕ) where
  pub turn-shrinks :
      (k : Counters) (c : Conn) → TurnShrinks (conn_size c) (turn crc64 max_batch_size k c)
  unfolding turn
  turn-shrinks k c =
      on_read-shrinks crc64 max_batch_size (conn_size c) k _
        (read-shrinks frame_header_size c (omega arith))
