-- ===== src/Transport/Tests/Frames.antt =====
-- Runs of the receiver's loop over a connection.
use go_mongo_sync.Prelude.{◌≡◌, refl, true, false, some, [], ◌∷◌, ◌++◌, map, arith}
use go_mongo_sync.Prelude.Bytes.{Bytes}
use go_mongo_sync.Transport.Protocol.{Frame, encode_header, new_doc_batch_frame}
use go_mongo_sync.Transport.Protocol.Frames.{new_doc_batch_frame-IsSound}
use go_mongo_sync.Transport.Loop.{bytes, Conn, fresh, handle_loop, conn_size, timeout}
use go_mongo_sync.Transport.Loop.Delivery.{
  IsSendable, Arrives, done, apart, joined, handle_loop_delivers,
}
use go_mongo_sync.Transport.Tests.Samples.{crc, crc-lt, doc}

abbrev frame : Frame
frame = new_doc_batch_frame crc 300 17 doc false true

frame-IsSendable : IsSendable crc 1000 frame
frame-IsSendable = record {
  sound =
      new_doc_batch_frame-IsSound crc crc-lt 300 17 doc false true (omega arith) (omega arith)
        (omega arith);
  unreserved = unfold new_doc_batch_frame in refl;
  fits = unfold new_doc_batch_frame in omega arith;
}

-- Two frames: the payload of the first in two pieces, of the second behind its header.
abbrev two_frames : Conn
two_frames =
    bytes (encode_header frame.header)
    ∷ (map bytes ((5 ∷ 0 ∷ []) ∷ (0 ∷ 0 ∷ 0 ∷ []) ∷ [])
        ++ (bytes (encode_header frame.header ++ doc) ∷ (map bytes [] ++ [])))

two_frames-Arrives : Arrives crc 1000 (frame ∷ frame ∷ []) two_frames
two_frames-Arrives =
    apart frame ((5 ∷ 0 ∷ []) ∷ (0 ∷ 0 ∷ 0 ∷ []) ∷ []) frame-IsSendable
      (omega arith, (omega arith, tt)) (unfold new_doc_batch_frame in refl)
      (joined frame doc [] frame-IsSendable (omega arith) tt (unfold new_doc_batch_frame in refl)
        done)

handle_loop_delivers_example : handle_loop crc 1000 200 fresh two_frames ≡ some (frame ∷ frame ∷ [])
handle_loop_delivers_example =
    handle_loop_delivers crc 1000 200 fresh two_frames-Arrives
      (unfold conn_size encode_header in omega arith)

abbrev quiet : Conn
quiet = timeout ∷ bytes doc ∷ timeout ∷ []

abbrev split_at : Bytes × Bytes
split_at = (
  0 ∷ 0 ∷ 0 ∷ 37 ∷ 4 ∷ 1 ∷ 0 ∷ 1 ∷ 0 ∷ 0 ∷ 0 ∷ 0 ∷ 0 ∷ 0 ∷ 1 ∷ 44 ∷ [],
  0 ∷ 0 ∷ 0 ∷ 0 ∷ 0 ∷ 0 ∷ 0 ∷ 17 ∷ 0 ∷ 0 ∷ 0 ∷ 0 ∷ 0 ∷ 0 ∷ 0 ∷ 5 ∷ [],
)
