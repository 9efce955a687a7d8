-- ===== src/Wal/Log/Requests.antt =====
-- pkg/wal/wal.go: writing to the segments leaves the requests and their results alone.
use go_mongo_sync.Prelude.{
  ℕ, ◌+◌, ◌≡◌, refl, ◌∙◌, Bool, true, false, Bool-cases, inl, inr, Option, Option-cases, none, some,
  List, [], ◌∷◌, leb,
}
use go_mongo_sync.Prelude.Bytes.{Bytes}
use go_mongo_sync.Wal.Segment.{Entry}
use go_mongo_sync.Wal.Log.{
  WalError, Segment, Wal, Outcome, max_segment_size, close_segment, after_close, rotate_segment,
  make_room, then_append, write_request, write_requests,
}

pub record SameRequests (w w' : Wal) : Type 0 where
  pub same_answers : w'.answers ≡ w.answers
  pub same_queue : w'.commit_queue ≡ w.commit_queue
  pub same_pending : w'.pending_commits ≡ w.pending_commits
  pub same_closed : w'.closed ≡ w.closed
  pub same_worker : w'.worker_runs ≡ w.worker_runs

pub SameRequests-refl : (w : Wal) → SameRequests w w
SameRequests-refl w = record {
  same_answers = refl;
  same_queue = refl;
  same_pending = refl;
  same_closed = refl;
  same_worker = refl;
}

pub SameRequests-trans : (a b c : Wal) → SameRequests a b → SameRequests b c → SameRequests a c
SameRequests-trans a b c h k = record {
  same_answers = k.same_answers ∙ h.same_answers;
  same_queue = k.same_queue ∙ h.same_queue;
  same_pending = k.same_pending ∙ h.same_pending;
  same_closed = k.same_closed ∙ h.same_closed;
  same_worker = k.same_worker ∙ h.same_worker;
}

after_close-SameRequests :
    (creates : Bool) (w : Wal) (r : Option WalError × Segment)
    → SameRequests w (after_close creates w r).1
after_close-SameRequests true w (none, s) = record {
  same_answers = refl;
  same_queue = refl;
  same_pending = refl;
  same_closed = refl;
  same_worker = refl;
}
after_close-SameRequests false w (none, s) = record {
  same_answers = refl;
  same_queue = refl;
  same_pending = refl;
  same_closed = refl;
  same_worker = refl;
}
after_close-SameRequests creates w (some e, s) = record {
  same_answers = refl;
  same_queue = refl;
  same_pending = refl;
  same_closed = refl;
  same_worker = refl;
}

make_room-SameRequests : (o : Outcome) (w : Wal) → SameRequests w (make_room o w).1
unfolding make_room rotate_segment
make_room-SameRequests o w = elim (Bool-cases (leb max_segment_size w.active_segment.size)) [
  | inl e ↦ rw e (after_close-SameRequests o.creates w (close_segment o.close w.active_segment))
  | inr e ↦ rw e (SameRequests-refl w)
]

module _ (crc32c : Bytes → ℕ) where
  then_append-SameRequests :
      (o : Outcome) (e : Entry) (w : Wal) (r : Option WalError × Wal)
      → SameRequests w r.1
      → SameRequests w (then_append crc32c o e r).1
  then_append-SameRequests o e w (some error, w') h = h
  then_append-SameRequests o e w (none, w') h = record {
    same_answers = h.same_answers;
    same_queue = h.same_queue;
    same_pending = h.same_pending;
    same_closed = h.same_closed;
    same_worker = h.same_worker;
  }

  write_request-SameRequests :
      (o : Outcome) (e : Entry) (w : Wal) → SameRequests w (write_request crc32c o e w).1
  unfolding write_request
  write_request-SameRequests o e w =
      then_append-SameRequests o e w (make_room o w) (make_room-SameRequests o w)

  pub write_requests-SameRequests :
      (o : ℕ → Outcome) (i : ℕ) (batch : List Entry) (w : Wal)
      → SameRequests w (write_requests crc32c o i batch w).1
  unfolding write_requests
  write_requests-SameRequests o i [] w = SameRequests-refl w
  write_requests-SameRequests o i (e ∷ batch) w =
      let here = write_request-SameRequests (o i) e w in
      elim (Option-cases (write_request crc32c (o i) e w).0) [
        | inl good ↦
            rw (write_requests, good)
              (SameRequests-trans _ _ _ here (write_requests-SameRequests o (i + 1) batch _))
        | inr (error, bad) ↦ rw (write_requests, bad) here
      ]
