-- ===== src/Wal/Recovery/Pending.antt =====
-- pkg/wal/wal.go: what `GetPendingEntries` and `recover` make of files that hold entries.
use go_mongo_sync.Prelude.{
  ℕ, ◌^◌, ◌≤◌, ◌<◌, ◌≡◌, refl, sym, ap, Bool-cases, inl, inr, List, [], ◌∷◌, ◌++◌, map, flatten,
  All, arith,
}
use go_mongo_sync.Prelude.Bytes.{Bytes}
use go_mongo_sync.Prelude.Result.{ok}
use go_mongo_sync.Wal.Segment.{Entry, serialized}
use go_mongo_sync.Wal.Segment.RoundTrip.{Fits}
use go_mongo_sync.Wal.Recovery.{
  Scan, scan_entry, scan_entries, scan_files, is_pending, pending_of, get_pending_entries,
}
use go_mongo_sync.Wal.Recovery.Reading.{read_file-serialized}

pub pending_of-append :
    (xs ys : List Entry) → pending_of (xs ++ ys) ≡ pending_of xs ++ pending_of ys
unfolding pending_of
pending_of-append [] ys = refl
pending_of-append (x ∷ xs) ys = elim (Bool-cases (is_pending x)) [
  | inl e ↦ rw e (ap (λ r. x ∷ r) (pending_of-append xs ys))
  | inr e ↦ rw e (pending_of-append xs ys)
]

scan_entries-append :
    (xs ys : List Entry) (s : Scan)
    → scan_entries (xs ++ ys) s ≡ scan_entries ys (scan_entries xs s)
unfolding scan_entries
scan_entries-append [] ys s = refl
scan_entries-append (x ∷ xs) ys s = scan_entries-append xs ys (scan_entry x s)

scan_entry_max :
    (e : Entry) (s : Scan)
    → (e.entry_id ≤ (scan_entry e s).max_entry_id)
      × (s.max_entry_id ≤ (scan_entry e s).max_entry_id)
unfolding scan_entry
scan_entry_max e s = ground arith

-- No id is above the largest.
pub scan_entries_max :
    (es : List Entry) (s : Scan)
    → (s.max_entry_id ≤ (scan_entries es s).max_entry_id)
      × All (λ (e : Entry). e.entry_id ≤ (scan_entries es s).max_entry_id) es
unfolding scan_entries
scan_entries_max [] s = (omega arith, tt)
scan_entries_max (e ∷ es) s =
    let (first, rest) = scan_entries_max es (scan_entry e s) in
    let here = scan_entry_max e s in
    (omega (arith, first, here.1), (omega (arith, first, here.0), rest))

module _ (crc32c : Bytes → ℕ) (crc32c-lt : (xs : Bytes) → crc32c xs < 256 ^ 4) where
  pub get_pending_entries-serialized :
      (ess : List (List Entry))
      → All (All Fits) ess
      → get_pending_entries crc32c (map (serialized crc32c) ess) ≡ ok (pending_of (flatten ess))
  unfolding get_pending_entries
  get_pending_entries-serialized [] f = unfold pending_of in refl
  get_pending_entries-serialized (es ∷ ess) f =
      rw (read_file-serialized crc32c crc32c-lt es f.0, get_pending_entries-serialized ess f.1)
        (ap ok (sym (pending_of-append es (flatten ess))))

  pub scan_files-serialized :
      (ess : List (List Entry)) (s : Scan)
      → All (All Fits) ess
      → scan_files crc32c (map (serialized crc32c) ess) s ≡ ok (scan_entries (flatten ess) s)
  unfolding scan_files
  scan_files-serialized [] s f = unfold scan_entries in refl
  scan_files-serialized (es ∷ ess) s f =
      rw
        (
          read_file-serialized crc32c crc32c-lt es f.0,
          scan_files-serialized ess (scan_entries es s) f.1,
        )
        (ap ok (sym (scan_entries-append es (flatten ess) s)))
