-- ===== src/Wal/Log/Stores.antt =====
-- pkg/wal/wal.go: the entries that the files of a log hold, and that writing puts entries behind
-- them.
use go_mongo_sync.Prelude.{
  ℕ, ◌+◌, ◌≡◌, refl, sym, ap, ap₂, ◌∙◌, Bool, true, false, Bool-cases, inl, inr, Option,
  Option-cases, none, some, List, [], ◌∷◌, ◌++◌, map, leb, flatten, append_assoc, append-nil,
}
use mathlib.Core.List.{map-append}
use go_mongo_sync.Prelude.Bytes.{Bytes}
use go_mongo_sync.Wal.Segment.{Entry, serialize_entry, serialized}
use go_mongo_sync.Wal.Log.{
  WalError, Wal, Outcome, Write, whole, broken, Flush, flushed, flush_error, fsync_error,
  new_segment, max_segment_size, after_flush, close_segment, after_close, rotate_segment, make_room,
  append_entry, then_append, write_request, write_requests,
}

module _ (crc32c : Bytes → ℕ) where
  -- The files hold the entries `es`, in order and whole; those of the active segment that no fsync
  -- has confirmed are in the buffer, and none has failed.
  pub record Stores (w : Wal) (es : List Entry) : Type 0 where
    pub older_entries : List (List Entry)
    pub active_entries : List Entry
    pub older_files : w.older ≡ map (serialized crc32c) older_entries
    pub active_file :
        w.active_segment.synced ++ w.active_segment.unsynced ≡ serialized crc32c active_entries
    pub together : flatten older_entries ++ active_entries ≡ es
    pub is_open : w.active_segment.closed ≡ false
    pub is_trusted : w.active_segment.in_doubt ≡ false

  pub serialized-append :
      (xs ys : List Entry)
      → serialized crc32c (xs ++ ys) ≡ serialized crc32c xs ++ serialized crc32c ys
  unfolding serialized
  serialized-append [] ys = refl
  serialized-append (x ∷ xs) ys =
      ap (λ r. serialize_entry crc32c x ++ r) (serialized-append xs ys)
      ∙ sym (append_assoc (serialize_entry crc32c x) (serialized crc32c xs) (serialized crc32c ys))

  serialized_one : (e : Entry) → serialized crc32c (e ∷ []) ≡ serialize_entry crc32c e
  unfolding serialized
  serialized_one e = append-nil (serialize_entry crc32c e)

  flatten-append_one :
      (xss : List (List Entry)) (xs : List Entry)
      → flatten (xss ++ (xs ∷ [])) ++ [] ≡ flatten xss ++ xs
  flatten-append_one [] xs = ap (λ r. r ++ []) (append-nil xs) ∙ append-nil xs
  flatten-append_one (ys ∷ xss) xs =
      append_assoc ys (flatten (xss ++ (xs ∷ []))) []
      ∙ (ap (λ r. ys ++ r) (flatten-append_one xss xs) ∙ sym (append_assoc ys (flatten xss) xs))

  after_close-Stores :
      (creates : Bool) (f : Flush) (w : Wal) (es : List Entry)
      → (after_close creates w (after_flush f (record w.active_segment { closed = true }))).0 ≡ none
      → Stores w es
      → Stores
          (after_close creates w (after_flush f (record w.active_segment { closed = true }))).1
          es
  unfolding new_segment
  after_close-Stores true flushed w es h s = rw s.is_trusted (record {
    older_entries = s.older_entries ++ (s.active_entries ∷ []);
    active_entries = [];
    older_files =
        ap₂ (λ r x. r ++ (x ∷ [])) s.older_files s.active_file
        ∙ sym (map-append (serialized crc32c) s.older_entries (s.active_entries ∷ []));
    active_file = unfold serialized in refl;
    together = flatten-append_one s.older_entries s.active_entries ∙ s.together;
    is_open = refl;
    is_trusted = refl;
  })
  after_close-Stores false flushed w es h s = cc h
  after_close-Stores c flush_error w es h s = cc h
  after_close-Stores c fsync_error w es h s = cc h

  rotate_segment-Stores :
      (o : Outcome) (w : Wal) (es : List Entry)
      → (rotate_segment o w).0 ≡ none
      → Stores w es
      → Stores (rotate_segment o w).1 es
  unfolding rotate_segment close_segment
  rotate_segment-Stores o w es h s = rw s.is_open (
      after_close-Stores o.creates o.close w es (rw (rotate_segment, close_segment, s.is_open) at h)
        s)

  make_room-Stores :
      (o : Outcome) (w : Wal) (es : List Entry)
      → (make_room o w).0 ≡ none
      → Stores w es
      → Stores (make_room o w).1 es
  unfolding make_room
  make_room-Stores o w es h s = elim (Bool-cases (leb max_segment_size w.active_segment.size)) [
    | inl e ↦ rw e (rotate_segment-Stores o w es (rw (make_room, e) at h) s)
    | inr e ↦ rw e s
  ]

  append_entry-Stores :
      (o : Write) (e : Entry) (w : Wal) (es : List Entry)
      → (append_entry crc32c o e w.active_segment).0 ≡ none
      → Stores w es
      → Stores
          (record w { active_segment = (append_entry crc32c o e w.active_segment).1 })
          (es ++ (e ∷ []))
  unfolding append_entry
  append_entry-Stores (broken n) e w es h s = cc (rw (append_entry, s.is_open) at h)
  append_entry-Stores whole e w es h s = rw s.is_open (record {
    older_entries = s.older_entries;
    active_entries = s.active_entries ++ (e ∷ []);
    older_files = s.older_files;
    active_file =
        sym (
          append_assoc w.active_segment.synced w.active_segment.unsynced (serialize_entry crc32c e))
        ∙ (ap₂ (λ a b. a ++ b) s.active_file (sym (serialized_one e))
            ∙ sym (serialized-append s.active_entries (e ∷ [])));
    together =
        sym (append_assoc (flatten s.older_entries) s.active_entries (e ∷ []))
        ∙ ap (λ r. r ++ (e ∷ [])) s.together;
    is_open = refl;
    is_trusted = s.is_trusted;
  })

  then_append-Stores :
      (o : Outcome) (e : Entry) (es : List Entry) (r : Option WalError × Wal)
      → (r.0 ≡ none → Stores r.1 es)
      → (then_append crc32c o e r).0 ≡ none
      → Stores (then_append crc32c o e r).1 (es ++ (e ∷ []))
  then_append-Stores o e es (some error, w) f h = cc h
  then_append-Stores o e es (none, w) f h = append_entry-Stores o.write e w es h (f refl)

  write_request-Stores :
      (o : Outcome) (e : Entry) (w : Wal) (es : List Entry)
      → (write_request crc32c o e w).0 ≡ none
      → Stores w es
      → Stores (write_request crc32c o e w).1 (es ++ (e ∷ []))
  unfolding write_request
  write_request-Stores o e w es h s =
      then_append-Stores o e es (make_room o w) (λ h'. make_room-Stores o w es h' s) h

  -- Entries that are written without an error stand behind those that were there.
  pub write_requests-Stores :
      (o : ℕ → Outcome) (i : ℕ) (batch : List Entry) (w : Wal) (es : List Entry)
      → (write_requests crc32c o i batch w).0 ≡ none
      → Stores w es
      → Stores (write_requests crc32c o i batch w).1 (es ++ batch)
  unfolding write_requests
  write_requests-Stores o i [] w es h s = rw (append-nil es) s
  write_requests-Stores o i (e ∷ batch) w es h s =
      elim (Option-cases (write_request crc32c (o i) e w).0) [
        | inl good ↦
            let s' = write_request-Stores (o i) e w es good s in
            let h' = rw (write_requests, good) at h in
            rw (write_requests, good, sym (append_assoc es (e ∷ []) batch))
              (write_requests-Stores o (i + 1) batch _ (es ++ (e ∷ [])) h' s')
        | inr (error, bad) ↦ cc (rw (write_requests, bad) at h)
      ]
