-- ===== src/Wal/Recovery/Restart.antt =====
-- pkg/wal/wal.go: the log that `New` makes of whole files.
use go_mongo_sync.Prelude.{
  ℕ, ◌+◌, ◌-◌, ◌%◌, ◌^◌, ◌≤◌, ◌<◌, ◌≡◌, refl, sym, ap, ◌∙◌, true, List, [], ◌∷◌, ◌++◌, map, length,
  flatten, All, arith, append-nil, append_assoc,
}
use go_mongo_sync.Prelude.Bytes.{Bytes}
use go_mongo_sync.Prelude.Result.{ok}
use go_mongo_sync.Wal.Segment.{Entry, serialized}
use go_mongo_sync.Wal.Segment.RoundTrip.{Fits}
use go_mongo_sync.Wal.Log.{Wal, new_segment}
use go_mongo_sync.Wal.Log.Stores.{Stores}
use go_mongo_sync.Wal.Recovery.{
  Scan, scan_entry, scan_entries, recover, no_entries, start, init_of, last_of,
}
use go_mongo_sync.Wal.Recovery.Pending.{scan_entries_max, scan_files-serialized}

scan_entry-lt :
    (e : Entry) (s : Scan) (bound : ℕ)
    → e.entry_id < bound
    → s.max_entry_id < bound
    → (scan_entry e s).max_entry_id < bound
unfolding scan_entry
scan_entry-lt e s bound h k = ground arith

scan_entries-lt :
    (es : List Entry) (s : Scan) (bound : ℕ)
    → All (λ (e : Entry). e.entry_id < bound) es
    → s.max_entry_id < bound
    → (scan_entries es s).max_entry_id < bound
unfolding scan_entries
scan_entries-lt [] s bound h k = k
scan_entries-lt (e ∷ es) s bound h k =
    scan_entries-lt es (scan_entry e s) bound h.1 (scan_entry-lt e s bound h.0 k)

scan_entries_total :
    (es : List Entry) (s : Scan) → (scan_entries es s).total_entries ≡ s.total_entries + length es
unfolding scan_entries scan_entry
scan_entries_total [] s = omega arith
scan_entries_total (e ∷ es) s = omega (arith, scan_entries_total es (scan_entry e s))

-- The last of a nonempty row of lists, and those before it.
init_lists : List Entry → List (List Entry) → List (List Entry)
init_lists es [] = []
init_lists es (fs ∷ ess) = es ∷ init_lists fs ess

last_list : List Entry → List (List Entry) → List Entry
last_list es [] = es
last_list es (fs ∷ ess) = last_list fs ess

flatten-init_lists :
    (es : List Entry) (ess : List (List Entry))
    → flatten (init_lists es ess) ++ last_list es ess ≡ flatten (es ∷ ess)
unfolding init_lists last_list
flatten-init_lists es [] = sym (append-nil es)
flatten-init_lists es (fs ∷ ess) =
    append_assoc es (flatten (init_lists fs ess)) (last_list fs ess)
    ∙ ap (λ r. es ++ r) (flatten-init_lists fs ess)

All-le→lt :
    (es : List Entry) (m n : ℕ)
    → m < n
    → All (λ (e : Entry). e.entry_id ≤ m) es
    → All (λ (e : Entry). e.entry_id < n) es
All-le→lt [] m n h a = tt
All-le→lt (e ∷ es) m n h a = (omega (arith, a.0), All-le→lt es m n h a.1)

-- What a restart promises of the log that it makes of the entries `es`.
pub record Restarted (crc32c : Bytes → ℕ) (es : List Entry) (w : Wal) : Type 0 where
  pub stores : Stores crc32c w es
  pub above : All (λ (e : Entry). e.entry_id < w.next_entry_id) es
  pub counted : w.stats.total_entries ≡ length es

module _ (crc32c : Bytes → ℕ) (crc32c-lt : (xs : Bytes) → crc32c xs < 256 ^ 4) where
  init_of-serialized :
      (es : List Entry) (ess : List (List Entry))
      → init_of (serialized crc32c es) (map (serialized crc32c) ess)
        ≡ map (serialized crc32c) (init_lists es ess)
  unfolding init_lists
  init_of-serialized es [] = refl
  init_of-serialized es (fs ∷ ess) = ap (λ r. serialized crc32c es ∷ r) (init_of-serialized fs ess)

  last_of-serialized :
      (es : List Entry) (ess : List (List Entry))
      → last_of (serialized crc32c es) (map (serialized crc32c) ess)
        ≡ serialized crc32c (last_list es ess)
  unfolding last_list
  last_of-serialized es [] = refl
  last_of-serialized es (fs ∷ ess) = last_of-serialized fs ess

  -- On files of whole entries in range, with ids below 2^64 - 1, `New` succeeds. The log it makes
  -- holds exactly those entries in their order, counts them, and its next id is above all theirs.
  pub recover-Restarted :
      (es : List Entry) (ess : List (List Entry)) (last_num : ℕ)
      → All (All Fits) (es ∷ ess)
      → All (λ (e : Entry). e.entry_id < 2 ^ 64 - 1) (flatten (es ∷ ess))
      → (w : Wal) × (recover crc32c last_num true (map (serialized crc32c) (es ∷ ess)) ≡ ok w)
        × Restarted crc32c (flatten (es ∷ ess)) w
  unfolding recover
  recover-Restarted es ess last_num f ids =
      let s = scan_entries (flatten (es ∷ ess)) no_entries in
      let older = init_of (serialized crc32c es) (map (serialized crc32c) ess) in
      let active =
        new_segment last_num (last_of (serialized crc32c es) (map (serialized crc32c) ess)) in
      let small : s.max_entry_id < 2 ^ 64 - 1 =
        scan_entries-lt (flatten (es ∷ ess)) no_entries _ ids (omega arith) in
      (
        start older active last_num ((s.max_entry_id + 1) % 2 ^ 64) s,
        rw (scan_files-serialized crc32c crc32c-lt (es ∷ ess) no_entries f) refl,
        record {
          stores = record {
            older_entries = init_lists es ess;
            active_entries = last_list es ess;
            older_files = init_of-serialized es ess;
            active_file = unfold new_segment in append-nil _ ∙ last_of-serialized es ess;
            together = flatten-init_lists es ess;
            is_open = unfold new_segment in refl;
            is_trusted = unfold new_segment in refl;
          };
          above =
              All-le→lt (flatten (es ∷ ess)) s.max_entry_id _ (omega (arith, small))
                (scan_entries_max (flatten (es ∷ ess)) no_entries).1;
          counted = scan_entries_total (flatten (es ∷ ess)) no_entries ∙ omega arith;
        },
      )
