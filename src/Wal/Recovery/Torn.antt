-- ===== src/Wal/Recovery/Torn.antt =====
-- pkg/wal/wal.go: recovery when the last entry of the last file was cut off.
use go_mongo_sync.Prelude.{
  ℕ, ◌+◌, ◌^◌, ◌<◌, ◌≡◌, refl, ap, ◌∙◌, Bool, some, List, [], ◌∷◌, ◌++◌, map, length, take, All,
  arith, length-append,
}
use go_mongo_sync.Prelude.Bytes.{Bytes}
use go_mongo_sync.Prelude.Result.{err}
use go_mongo_sync.Wal.Segment.{Entry, unexpected_eof, end_of_read, serialize_entry, serialized}
use go_mongo_sync.Wal.Segment.RoundTrip.{Fits}
use go_mongo_sync.Wal.Segment.Torn.{cut_error, field_lengths, read_segment-torn}
use go_mongo_sync.Wal.Log.{Wal, read_failed}
use go_mongo_sync.Wal.Recovery.{
  Scan, scan_entries, scan_files, read_file, get_pending_entries, recover, no_entries, Fate,
  AllKept, crash, crash-AllKept,
}
use go_mongo_sync.Wal.Recovery.Reading.{read_file-serialized, length-serialized}

-- The files of a log whose last one ends in a torn entry.
abbrev pub torn_files : (Bytes → ℕ) → List (List Entry) → List Entry → Entry → ℕ → List Bytes
torn_files crc32c ess es e k =
    map (serialized crc32c) ess
    ++ ((serialized crc32c es ++ take k (serialize_entry crc32c e)) ∷ [])

module _ (crc32c : Bytes → ℕ) (crc32c-lt : (xs : Bytes) → crc32c xs < 256 ^ 4) where
  module _ (es : List Entry) (e : Entry) (k : ℕ) (fit : All Fits es) (fits : Fits e)
      (short : k < length (serialize_entry crc32c e))
      (inside : cut_error (field_lengths e) k ≡ unexpected_eof) where
    read_file-torn :
        read_file crc32c (serialized crc32c es ++ take k (serialize_entry crc32c e))
        ≡ some (es, some unexpected_eof)
    unfolding read_file
    read_file-torn =
        let file = serialized crc32c es ++ take k (serialize_entry crc32c e) in
        let enough : length es < length file + 1 = omega (
          arith,
          length-serialized crc32c es,
          length-append (serialized crc32c es) (take k (serialize_entry crc32c e)),
        ) in
        read_segment-torn crc32c crc32c-lt es e k (length file + 1) fit fits short enough
        ∙ ap (λ x. some (es, (end_of_read x).1)) inside

    scan_files-torn :
        (ess : List (List Entry)) (s : Scan)
        → All (All Fits) ess
        → scan_files crc32c (torn_files crc32c ess es e k) s ≡ err (read_failed unexpected_eof)
    unfolding scan_files
    scan_files-torn [] s f = rw read_file-torn refl
    scan_files-torn (xs ∷ ess) s f =
        rw (read_file-serialized crc32c crc32c-lt xs f.0)
          (scan_files-torn ess (scan_entries xs s) f.1)

    get_pending_entries-torn :
        (ess : List (List Entry))
        → All (All Fits) ess
        → get_pending_entries crc32c (torn_files crc32c ess es e k)
          ≡ err (read_failed unexpected_eof)
    unfolding get_pending_entries
    get_pending_entries-torn [] f = rw read_file-torn refl
    get_pending_entries-torn (xs ∷ ess) f =
        rw (read_file-serialized crc32c crc32c-lt xs f.0, get_pending_entries-torn ess f.1) refl

    recover-torn :
        (ess : List (List Entry)) (last_num : ℕ) (opens : Bool)
        → All (All Fits) ess
        → recover crc32c last_num opens (torn_files crc32c ess es e k)
          ≡ err (read_failed unexpected_eof)
    unfolding recover
    recover-torn [] last_num opens f = rw (scan_files-torn [] no_entries f) refl
    recover-torn (xs ∷ ess) last_num opens f = rw (scan_files-torn (xs ∷ ess) no_entries f) refl

  -- After a crash that keeps the files and leaves, behind whole entries in range, the first `k` bytes of one whose
  -- write had not been confirmed, with the cut inside a field, neither `New` nor
  -- `GetPendingEntries` gives anything back: both fail with an unexpected end of the file.
  pub recover-crash :
      (w : Wal) (ess : List (List Entry)) (es : List Entry) (e : Entry) (k last_num : ℕ)
      (opens : Bool) (fate : ℕ → Fate)
      → AllKept fate
      → w.older ≡ map (serialized crc32c) ess
      → w.active_segment.synced ≡ serialized crc32c es
      → w.active_segment.unsynced ≡ serialize_entry crc32c e
      → All (All Fits) ess
      → All Fits es
      → Fits e
      → k < length (serialize_entry crc32c e)
      → cut_error (field_lengths e) k ≡ unexpected_eof
      → (recover crc32c last_num opens (crash fate k w) ≡ err (read_failed unexpected_eof))
        × (get_pending_entries crc32c (crash fate k w) ≡ err (read_failed unexpected_eof))
  recover-crash w ess es e k last_num opens fate keeps old synced unsynced fs f fit lt inside =
      rw (crash-AllKept fate k w keeps, old, synced, unsynced)
        (
          recover-torn es e k f fit lt inside ess last_num opens fs,
          get_pending_entries-torn es e k f fit lt inside ess fs,
        )
