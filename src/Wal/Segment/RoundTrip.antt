-- ===== src/Wal/Segment/RoundTrip.antt =====
-- pkg/wal/segment.go: what is written to a segment is read back.
use go_mongo_sync.Prelude.{
  ℕ, zero, suc, ◌%◌, ◌^◌, ◌<◌, ◌≡◌, refl, sym, ap, ◌∙◌, true, none, some, List, [], ◌∷◌, ◌++◌,
  length, All, arith, length-append, take-append, drop-append, append_assoc, ◌==◌, ==_iff, le→ltb,
}
use go_mongo_sync.Prelude.Bytes.{Bytes, le_bytes, le_nat, le_nat-le_bytes, length-le_bytes}
use go_mongo_sync.Prelude.Result.{ok, err}
use go_mongo_sync.Wal.Segment.{
  Entry, ReadError, end_of_read, eof, entry_header, entry_payload, serialize_entry, entry_of,
  read_full, read_sized, read_entry, cons_entry, read_segment, serialized,
}

-- The fields of an entry fit the widths that a segment gives them.
pub record Fits (e : Entry) : Type 0 where
  pub entry_id_fits : e.entry_id < 256 ^ 8
  pub timestamp_fits : e.timestamp < 256 ^ 8
  pub database_fits : length e.database < 2 ^ 16
  pub collection_fits : length e.collection < 2 ^ 16
  pub documents_fits : length e.documents < 2 ^ 32
  pub no_crc32 : e.crc32 ≡ 0

pub read_full-append :
    (n : ℕ) (xs ys : Bytes) → n ≡ length xs → read_full n (xs ++ ys) ≡ ok (xs, ys)
unfolding read_full
read_full-append n xs ys h =
    rw
      (
        le→ltb (length (xs ++ ys)) n (omega (arith, length-append xs ys)),
        take-append n xs ys h,
        drop-append n xs ys h,
      )
      refl

pub read_sized-append :
    (width n : ℕ) (value rest : Bytes)
    → n ≡ length value
    → n < 256 ^ width
    → read_sized width (le_bytes width n ++ (value ++ rest)) ≡ ok (le_bytes width n, value, rest)
unfolding read_sized
read_sized-append width n value rest h lt =
    rw
      (
        read_full-append width (le_bytes width n) (value ++ rest) (sym (length-le_bytes width n)),
        read_full-append (le_nat (le_bytes width n)) value rest (le_nat-le_bytes width n lt ∙ h),
      )
      refl

pub length-entry_header : (e : Entry) → length (entry_header e) ≡ 18
unfolding entry_header
length-entry_header e = refl

module _ (crc32c : Bytes → ℕ) where
  -- An entry and what follows it, as a row of fields.
  pub serialize_entry-append :
      (e : Entry) (rest : Bytes)
      → serialize_entry crc32c e ++ rest
        ≡ le_bytes 4 (crc32c (entry_payload e))
          ++ (entry_header e
              ++ (le_bytes 2 (length e.database % 2 ^ 16)
                  ++ (e.database
                      ++ (le_bytes 2 (length e.collection % 2 ^ 16)
                          ++ (e.collection
                              ++ (le_bytes 4 (length e.documents % 2 ^ 32)
                                  ++ (e.documents ++ rest)))))))
  unfolding serialize_entry entry_payload
  serialize_entry-append e rest = simp append_assoc

  entry_of-entry_header :
      (e : Entry) → Fits e → entry_of (entry_header e) e.database e.collection e.documents ≡ e
  unfolding entry_header
  entry_of-entry_header e f = cc (
    le_nat-le_bytes 8 e.entry_id f.entry_id_fits,
    le_nat-le_bytes 8 e.timestamp f.timestamp_fits,
    f.no_crc32,
  )

  pub read_segment_entry :
      (fuel : ℕ) (file rest : Bytes) (e : Entry)
      → read_entry crc32c file ≡ ok (e, rest)
      → read_segment crc32c (suc fuel) file ≡ cons_entry e (read_segment crc32c fuel rest)
  unfolding read_segment
  read_segment_entry fuel file rest e h = rw (h, read_segment) refl

  pub read_segment_end :
      (fuel : ℕ) (file : Bytes) (error : ReadError)
      → read_entry crc32c file ≡ err error
      → read_segment crc32c (suc fuel) file ≡ some (end_of_read error)
  unfolding read_segment
  read_segment_end fuel file error h = rw (h, read_segment) refl

  pub read_entry-nil : read_entry crc32c [] ≡ err eof
  unfolding read_entry read_full
  read_entry-nil = refl

  module _ (crc32c-lt : (xs : Bytes) → crc32c xs < 256 ^ 4) where
    sum_matches :
        (e : Entry)
        → (crc32c (entry_payload e) == le_nat (le_bytes 4 (crc32c (entry_payload e)))) ≡ true
    sum_matches e =
        (==_iff (crc32c (entry_payload e)) (le_nat (le_bytes 4 (crc32c (entry_payload e))))).1
          (sym (le_nat-le_bytes 4 (crc32c (entry_payload e)) (crc32c-lt (entry_payload e))))

    pub read_entry-serialize_entry :
        (e : Entry) (rest : Bytes)
        → Fits e
        → read_entry crc32c (serialize_entry crc32c e ++ rest) ≡ ok (e, rest)
    unfolding read_entry entry_payload
    read_entry-serialize_entry e rest f =
        let sum = crc32c (entry_payload e) in
        let docs = le_bytes 4 (length e.documents % 2 ^ 32) ++ (e.documents ++ rest) in
        let coll = le_bytes 2 (length e.collection % 2 ^ 16) ++ (e.collection ++ docs) in
        let db = le_bytes 2 (length e.database % 2 ^ 16) ++ (e.database ++ coll) in
        rw
          (
            serialize_entry-append e rest,
            read_full-append 4 (le_bytes 4 sum) (entry_header e ++ db)
                (sym (length-le_bytes 4 sum)),
            read_full-append 18 (entry_header e) db (sym (length-entry_header e)),
            read_sized-append 2 (length e.database % 2 ^ 16) e.database coll
                (omega (arith, f.database_fits)) (omega (arith, f.database_fits)),
            read_sized-append 2 (length e.collection % 2 ^ 16) e.collection docs
                (omega (arith, f.collection_fits)) (omega (arith, f.collection_fits)),
            read_sized-append 4 (length e.documents % 2 ^ 32) e.documents rest
                (omega (arith, f.documents_fits)) (omega (arith, f.documents_fits)),
            sum_matches e,
            entry_of-entry_header e f,
          )
          refl

    -- Any number of entries in range, written one after another, are read back as they were, in
    -- order and to the end of the file, in one round more than there are entries.
    pub read_segment-serialized :
        (es : List Entry) (fuel : ℕ)
        → All Fits es
        → length es < fuel
        → read_segment crc32c fuel (serialized crc32c es) ≡ some (es, none)
    unfolding serialized
    read_segment-serialized [] zero fs lt = absurd (omega arith)
    read_segment-serialized [] (suc fuel) fs lt = read_segment_end fuel [] eof read_entry-nil
    read_segment-serialized (e ∷ es) zero fs lt = absurd (omega arith)
    read_segment-serialized (e ∷ es) (suc fuel) fs lt =
        read_segment_entry fuel _ _ e (read_entry-serialize_entry e (serialized crc32c es) fs.0)
        ∙ ap (cons_entry e) (read_segment-serialized es fuel fs.1 (omega arith))
