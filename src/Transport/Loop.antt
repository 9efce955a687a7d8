-- ===== src/Transport/Loop.antt =====
-- pkg/transport/receiver.go, `handleLoop`: how the receiver takes frames from a TCP connection.
-- A connection is the list of what its reads will meet; its end is EOF. `net.Conn.Read` returns
-- what has arrived, which may be less than was asked for, and leaves the rest for the next read.
-- The timers and the back-off sleeps between reads have no effect on the frames and are left out.
pub mod Delivery
pub mod Split
pub mod Total
use go_mongo_sync.Prelude.{
  ℕ, zero, suc, ◌+◌, ◌-◌, Bool, true, false, not, ◌||◌, Option, none, some, List, [], ◌∷◌, ◌++◌,
  ltb, leb, ◌==◌, if◌then◌else◌, length, take, drop,
}
use go_mongo_sync.Prelude.Bytes.{Bytes}
use go_mongo_sync.Prelude.Result.{Result, ok, err}
use go_mongo_sync.Transport.Protocol.{
  FrameHeader, Frame, ProtocolError, frame_header_size, decode_header, validate, payload_size,
  verify_checksum,
}

-- What one read meets: bytes, a read deadline that passes, or another error.
pub data Arrival : Type 0 where
  bytes : Bytes → Arrival
  timeout : Arrival
  failure : Arrival

abbrev pub Conn : Type 0
Conn = List Arrival

pub data ReadResult : Type 0 where
  got : Bytes → Conn → ReadResult
  timed_out : Conn → ReadResult
  at_eof : ReadResult
  failed : ReadResult

-- `conn.Read(buf)` with `len(buf) = n`.
unfoldable pub read : ℕ → Conn → ReadResult
read n [] = at_eof
read n (bytes b ∷ c) = if leb (length b) n then got b c else got (take n b) (bytes (drop n b) ∷ c)
read n (timeout ∷ c) = timed_out c
read n (failure ∷ c) = failed

abbrev prepend : Bytes → Option (Bytes × Conn) → Option (Bytes × Conn)
prepend b none = none
prepend b (some (p, c)) = some (b ++ p, c)

-- The inner loop: reads until `n` bytes are there; any error, a timeout too, ends the connection.
unfoldable pub read_payload : ℕ → Conn → Option (Bytes × Conn)
read_payload n [] = if n == 0 then some ([], []) else none
read_payload n (bytes b ∷ c) =
    let rest = prepend b (read_payload (n - length b) c) in
    if n == 0
    then some ([], bytes b ∷ c)
    else if leb (length b) n
    then rest
    else some (take n b, bytes (drop n b) ∷ c)
read_payload n (timeout ∷ c) = if n == 0 then some ([], timeout ∷ c) else none
read_payload n (failure ∷ c) = if n == 0 then some ([], failure ∷ c) else none

pub record Counters : Type 0 where
  pub consecutive_errors : ℕ
  pub timeout_count : ℕ

abbrev pub fresh : Counters
fresh = record { consecutive_errors = 0; timeout_count = 0 }

abbrev pub max_consecutive_errors : ℕ
max_consecutive_errors = 15

abbrev pub max_timeout_errors : ℕ
max_timeout_errors = 10

-- Why an iteration gives no frame.
pub data Skipped : Type 0 where
  timed_out : Skipped
  partial_header : ℕ → Skipped
  bad_header : ProtocolError → Skipped
  oversized : ℕ → Skipped
  bad_checksum : Skipped

-- How one iteration ends: `return`, `continue`, or the message switch.
pub data Turn : Type 0 where
  closed : Turn
  skip : Skipped → Counters → Conn → Turn
  message : Frame → Conn → Turn

on_timeout : Counters → Conn → Turn
on_timeout k c =
    let k' : Counters = record {
      consecutive_errors = k.consecutive_errors + 1;
      timeout_count = k.timeout_count + 1;
    } in
    if leb max_timeout_errors k'.timeout_count || leb max_consecutive_errors k'.consecutive_errors
    then closed
    else skip timed_out k' c

module _ (crc64 : Bytes → ℕ) (max_batch_size : ℕ) where
  on_payload : FrameHeader → Option (Bytes × Conn) → Turn
  on_payload h none = closed
  on_payload h (some (p, c)) =
      let frame : Frame = record { header = h; payload = p } in
      if verify_checksum crc64 frame then message frame c else skip bad_checksum fresh c

  on_valid : FrameHeader → Conn → Result ProtocolError (Unit {0}) → Turn
  unfolding on_payload
  on_valid h c (err e) = skip (bad_header e) fresh c
  on_valid h c (ok _) =
      if ltb max_batch_size (payload_size h)
      then skip (oversized (payload_size h)) fresh c
      else on_payload h (read_payload (payload_size h) c)

  on_decoded : Conn → Result ProtocolError FrameHeader → Turn
  unfolding on_valid
  on_decoded c (err e) = skip (bad_header e) fresh c
  on_decoded c (ok h) = on_valid h c (validate h)

  on_read : Counters → ReadResult → Turn
  unfolding on_timeout on_decoded
  on_read k at_eof = closed
  on_read k failed = closed
  on_read k (timed_out c) = on_timeout k c
  on_read k (got b c) =
      if length b == frame_header_size
      then on_decoded c (decode_header b)
      else skip (partial_header (length b)) fresh c

  -- One round of the `for` loop.
  unfoldable pub turn : Counters → Conn → Turn
  unfolding on_read
  turn k c = on_read k (read frame_header_size c)

  -- The whole loop, as the frames that reach the message switch; `none` is fuel that ran out.
  unfoldable pub handle_loop : ℕ → Counters → Conn → Option (List Frame)
  handle_loop zero k c = none
  handle_loop (suc fuel) k c = elim (turn k c) [
    | closed ↦ some []
    | skip _ k' c' ↦ handle_loop fuel k' c'
    | message f c' ↦ elim (handle_loop fuel fresh c') [ none ↦ none | some fs ↦ some (f ∷ fs) ]
  ]

-- What the loop can still consume: every round takes an arrival or some bytes of one.
abbrev pub arrival_size : Arrival → ℕ
arrival_size (bytes b) = suc (length b)
arrival_size timeout = 1
arrival_size failure = 1

unfoldable pub conn_size : Conn → ℕ
conn_size [] = 0
conn_size (a ∷ c) = arrival_size a + conn_size c
