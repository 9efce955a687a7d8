-- ===== src/Transport/Loop/Delivery.antt =====
-- pkg/transport/receiver.go: `handleLoop` delivers the frames that were sent, when the header of
-- each arrives whole and at the start of what one read returns. The payload may arrive in any
-- pieces, the first of them together with the header.
use go_mongo_sync.Prelude.{
  ℕ, zero, suc, ◌-◌, ◌≤◌, ◌<◌, ◌≡◌, refl, sym, ap, ◌∙◌, true, some, List, [], ◌∷◌, ◌++◌, map,
  length, arith, length-append, All, replicate, flatten, append-nil, le→ltb, take-append,
  drop-append,
}
use go_mongo_sync.Prelude.Bytes.{Bytes}
use go_mongo_sync.Prelude.Result.{ok}
use go_mongo_sync.Transport.Protocol.{
  Frame, frame_header_size, encode_header, decode_header, verify_checksum,
}
use go_mongo_sync.Transport.Protocol.RoundTrip.{decode_header-encode_header, length-encode_header}
use go_mongo_sync.Transport.Protocol.Frames.{IsSound}
use go_mongo_sync.Transport.Loop.{
  Arrival, bytes, Conn, ReadResult, got, read, read_payload, prepend, Counters, fresh, message,
  turn, handle_loop, conn_size, on_payload, on_valid, on_decoded, on_read,
}
use go_mongo_sync.Transport.Loop.Total.{turn-shrinks}

abbrev NonEmpty : Bytes → Type 0
NonEmpty b = 0 < length b

read_payload-zero : (c : Conn) → read_payload 0 c ≡ some ([], c)
unfolding read_payload
read_payload-zero [] = refl
read_payload-zero (bytes b ∷ c) = refl
read_payload-zero (Arrival.timeout ∷ c) = refl
read_payload-zero (Arrival.failure ∷ c) = refl

read_payload-whole :
    (n : ℕ) (b : Bytes) (c : Conn)
    → 0 < n
    → length b ≤ n
    → read_payload n (bytes b ∷ c) ≡ prepend b (read_payload (n - length b) c)
unfolding read_payload
read_payload-whole n b c h le = ground arith

read_payload-pieces :
    (ps : List Bytes) (c : Conn)
    → All NonEmpty ps
    → read_payload (length (flatten ps)) (map bytes ps ++ c) ≡ some (flatten ps, c)
read_payload-pieces [] c h = read_payload-zero c
read_payload-pieces (p ∷ ps) c h =
    read_payload-whole _ p (map bytes ps ++ c) (omega (arith, length-append p (flatten ps)))
      (omega (arith, length-append p (flatten ps)))
    ∙ (ap (λ n. prepend p (read_payload n (map bytes ps ++ c)))
          (omega (arith, length-append p (flatten ps)))
        ∙ ap (prepend p) (read_payload-pieces ps c h.1))

-- The receiver has taken the header `h` off the connection and goes on with `c`.
module _ (crc64 : Bytes → ℕ) (max_batch_size : ℕ) where
  -- What a frame must be for the receiver to take it: sound, nothing in the reserved bytes, and
  -- no larger than the configured batch size.
  pub record IsSendable (f : Frame) : Type 0 where
    pub sound : IsSound crc64 f
    pub unreserved : f.header.reserved ≡ replicate 8 0
    pub fits : length f.payload ≤ max_batch_size

  decode_sent : (f : Frame) → IsSendable f → decode_header (encode_header f.header) ≡ ok f.header
  decode_sent f s =
      ap decode_header (sym (append-nil (encode_header f.header)))
      ∙ (decode_header-encode_header f.header [] s.sound.in_range ∙ λ i.
          ok (record f.header { reserved = sym s.unreserved i }))

  on_payload-sent :
      (f : Frame) (c : Conn)
      → verify_checksum crc64 f ≡ true
      → on_payload crc64 max_batch_size f.header (some (f.payload, c)) ≡ message f c
  unfolding on_payload
  on_payload-sent f c e = rw e

  on_read-sent :
      (f : Frame) (k : Counters) (c c' : Conn)
      → IsSendable f
      → read_payload (length f.payload) c ≡ some (f.payload, c')
      → on_read crc64 max_batch_size k (got (encode_header f.header) c) ≡ message f c'
  unfolding on_read on_decoded on_valid
  on_read-sent f k c c' s e =
      rw
        (
          length-encode_header f.header,
          decode_sent f s,
          s.sound.valid,
          s.sound.sized,
          le→ltb max_batch_size (length f.payload) s.fits,
          e,
        )
        (on_payload-sent f c' s.sound.checked)

read_alone : (n : ℕ) (b : Bytes) (c : Conn) → length b ≡ n → read n (bytes b ∷ c) ≡ got b c
unfolding read
read_alone n b c e = ground arith

read_joined :
    (n : ℕ) (b p : Bytes) (c : Conn)
    → n ≡ length b
    → NonEmpty p
    → read n (bytes (b ++ p) ∷ c) ≡ got b (bytes p ∷ c)
unfolding read
read_joined n b p c e h =
    ground (arith, length-append b p, take-append n b p e, drop-append n b p e)

module _ (crc64 : Bytes → ℕ) (max_batch_size : ℕ) where
  turn-eq :
      (k : Counters) (c : Conn) {r : ReadResult}
      → read frame_header_size c ≡ r
      → turn crc64 max_batch_size k c ≡ on_read crc64 max_batch_size k r
  unfolding turn
  turn-eq k c e = ap (on_read crc64 max_batch_size k) e

  -- The frames `fs` arrive on the connection: each with its header in one piece, alone or
  -- followed by some of the payload, and with the rest of the payload in nonempty pieces.
  pub data Arrives : List Frame → Conn → Type 0 where
    done : Arrives [] []
    apart :
        (f : Frame) (ps : List Bytes) {fs : List Frame} {c : Conn}
        → IsSendable crc64 max_batch_size f
        → All NonEmpty ps
        → flatten ps ≡ f.payload
        → Arrives fs c
        → Arrives (f ∷ fs) (bytes (encode_header f.header) ∷ (map bytes ps ++ c))
    joined :
        (f : Frame) (p : Bytes) (ps : List Bytes) {fs : List Frame} {c : Conn}
        → IsSendable crc64 max_batch_size f
        → NonEmpty p
        → All NonEmpty ps
        → p ++ flatten ps ≡ f.payload
        → Arrives fs c
        → Arrives (f ∷ fs) (bytes (encode_header f.header ++ p) ∷ (map bytes ps ++ c))

  read_payload-sent :
      (f : Frame) (ps : List Bytes) (c : Conn)
      → All NonEmpty ps
      → flatten ps ≡ f.payload
      → read_payload (length f.payload) (map bytes ps ++ c) ≡ some (f.payload, c)
  read_payload-sent f ps c h e = rw e at (read_payload-pieces ps c h)

  turn-apart :
      (k : Counters) (f : Frame) (ps : List Bytes) (c : Conn)
      → IsSendable crc64 max_batch_size f
      → All NonEmpty ps
      → flatten ps ≡ f.payload
      → turn crc64 max_batch_size k (bytes (encode_header f.header) ∷ (map bytes ps ++ c))
        ≡ message f c
  turn-apart k f ps c s h e =
      turn-eq k _
        (read_alone frame_header_size _ (map bytes ps ++ c) (length-encode_header f.header))
      ∙ on_read-sent crc64 max_batch_size f k _ c s (read_payload-sent f ps c h e)

  turn-joined :
      (k : Counters) (f : Frame) (p : Bytes) (ps : List Bytes) (c : Conn)
      → IsSendable crc64 max_batch_size f
      → NonEmpty p
      → All NonEmpty ps
      → p ++ flatten ps ≡ f.payload
      → turn crc64 max_batch_size k (bytes (encode_header f.header ++ p) ∷ (map bytes ps ++ c))
        ≡ message f c
  turn-joined k f p ps c s np h e =
      turn-eq k _ (
        read_joined frame_header_size _ p (map bytes ps ++ c) (sym (length-encode_header f.header))
          np)
      ∙ on_read-sent crc64 max_batch_size f k _ c s (read_payload-sent f (p ∷ ps) c (np, h) e)

  handle_loop-message :
      (fuel : ℕ) (k : Counters) (c : Conn) (f : Frame) (c' : Conn) (fs : List Frame)
      → turn crc64 max_batch_size k c ≡ message f c'
      → handle_loop crc64 max_batch_size fuel fresh c' ≡ some fs
      → handle_loop crc64 max_batch_size (suc fuel) k c ≡ some (f ∷ fs)
  unfolding handle_loop
  handle_loop-message fuel k c f c' fs e r = rw (e, handle_loop) (rw r)

  message-shrinks :
      (k : Counters) (c : Conn) (f : Frame) (c' : Conn)
      → turn crc64 max_batch_size k c ≡ message f c'
      → conn_size c' < conn_size c
  message-shrinks k c f c' e = rw e at (turn-shrinks crc64 max_batch_size k c)

  -- Frames that arrive with whole headers reach the message switch, all of them, in order and
  -- unchanged, whatever pieces the payloads arrive in.
  pub handle_loop_delivers :
      (fuel : ℕ) (k : Counters) {fs : List Frame} {c : Conn}
      → Arrives fs c
      → conn_size c < fuel
      → handle_loop crc64 max_batch_size fuel k c ≡ some fs
  handle_loop_delivers zero k a h = absurd (omega arith)
  handle_loop_delivers (suc fuel) k done h = unfold handle_loop turn on_read read in refl
  handle_loop_delivers (suc fuel) k (apart f ps {fs} {c} s ne e a) h =
      let t = turn-apart k f ps c s ne e in
      handle_loop-message fuel k _ f c fs t
        (handle_loop_delivers fuel fresh a (omega (arith, message-shrinks k _ f c t)))
  handle_loop_delivers (suc fuel) k (joined f p ps {fs} {c} s np ne e a) h =
      let t = turn-joined k f p ps c s np ne e in
      handle_loop-message fuel k _ f c fs t
        (handle_loop_delivers fuel fresh a (omega (arith, message-shrinks k _ f c t)))
