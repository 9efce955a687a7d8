-- ===== src/Memory/Tests.antt =====
-- pkg/memory/buffer.go at concrete inputs: an event is a list, and its JSON has its length.
use go_mongo_sync.Prelude.{
  ℕ, ◌≡◌, refl, true, Option, none, some, List, [], ◌∷◌, ◌++◌, length, ◌==◌, if◌then◌else◌, arith,
}
use go_mongo_sync.Prelude.Bytes.{Bytes}
use mathlib.Core.List.{Perm}
use go_mongo_sync.Memory.Buffer.{
  new_memory_buffer, BufferCall, adds, flushes, triggered, sets_callback, runs, Handed, buffer_call,
  buffer_calls, add_to_buffer, make_buffer_room, append_event, flush_buffer, trigger_flush,
  triggers, clear_buffer, set_flush_callback,
}
use go_mongo_sync.Memory.Buffer.Kept.{held, added_by_all, buffer_calls-held}

abbrev marshalled : Bytes → Option ℕ
marshalled a = if length a == 0 then none else some (length a)

abbrev calls : List (BufferCall Bytes)
calls =
    sets_callback
    ∷ adds (1 ∷ [])
    ∷ flushes
    ∷ adds (2 ∷ 2 ∷ [])
    ∷ adds []
    ∷ adds (4 ∷ [])
    ∷ triggered
    ∷ adds (3 ∷ [])
    ∷ runs 0
    ∷ []

abbrev nine : Handed Bytes
nine = (new_memory_buffer 9 2, record { called = []; started = [] })

-- The events of a flush reach the callback behind later ones.
out_of_order :
    buffer_calls marshalled calls nine
    ≡ some (
      record {
        events = record { event = 3 ∷ []; size = 1 } ∷ [];
        max_events = 9;
        flush_size = 2;
        total_size = 1;
        has_callback = true;
      },
      record {
        called =
            record { event = 2 ∷ 2 ∷ []; size = 2 }
            ∷ record { event = 4 ∷ []; size = 1 }
            ∷ record { event = 1 ∷ []; size = 1 }
            ∷ [];
        started = [];
      },
    )
unfolding buffer_calls buffer_call new_memory_buffer add_to_buffer make_buffer_room append_event
    flush_buffer trigger_flush triggers clear_buffer set_flush_callback
out_of_order = refl

buffer_calls-held_example :
    (s' : Handed Bytes) × (buffer_calls marshalled calls nine ≡ some s')
    × Perm (held s') (held nine ++ added_by_all marshalled calls)
unfolding new_memory_buffer
buffer_calls-held_example =
    buffer_calls-held marshalled calls nine (tt, (tt, (tt, (tt, (tt, (tt, (tt, (tt, (tt, tt)))))))))
      (omega arith)
