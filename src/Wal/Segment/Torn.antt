-- ===== src/Wal/Segment/Torn.antt =====
-- pkg/wal/segment.go: a segment whose last entry was cut off, as a crash in the middle of a write
-- leaves it.
use go_mongo_sync.Prelude.{
  ℕ, zero, suc, ◌+◌, ◌-◌, ◌%◌, ◌^◌, ◌≤◌, ◌<◌, ◌≡◌, refl, sym, ap, ◌∙◌, some, List, [], ◌∷◌, ◌++◌,
  length, take, All, arith, length-append, length-take, append_assoc, append-nil, ◌==◌, ltb,
  if◌then◌else◌, lt→ltb, ltb→lt, ltb→le, Bool-cases, inl, inr,
}
use go_mongo_sync.Prelude.Bytes.{Bytes, le_bytes, le_nat, le_nat-le_bytes, length-le_bytes}
use go_mongo_sync.Prelude.Result.{Result, ok, err, ◌>>=◌}
use go_mongo_sync.Wal.Segment.{
  Entry, ReadError, eof, unexpected_eof, corrupted_entry, end_of_read, entry_header, entry_payload,
  serialize_entry, read_full, read_sized, read_entry, cons_entry, read_segment, serialized,
}
use go_mongo_sync.Wal.Segment.RoundTrip.{
  Fits, read_full-append, serialize_entry-append, read_segment_entry, read_segment_end,
  read_entry-serialize_entry, length-entry_header,
}

-- The error of `io.ReadFull` when `k` bytes are left, fewer than it wants.
abbrev pub short_error : ℕ → ReadError
short_error k = if k == 0 then eof else unexpected_eof

-- The error of a row of reads of fixed lengths when `k` bytes are left.
abbrev pub cut_error : List ℕ → ℕ → ReadError
cut_error [] k = eof
cut_error (n ∷ ns) k = if ltb k n then short_error k else cut_error ns (k - n)

take-past {ℓ} :
    {A : Type ℓ} (k : ℕ) (xs ys : List A)
    → length xs ≤ k
    → take k (xs ++ ys) ≡ xs ++ take (k - length xs) ys
take-past k [] ys h = ap (λ n. take n ys) (omega arith)
take-past zero (x ∷ xs) ys h = absurd (omega arith)
take-past (suc k) (x ∷ xs) ys h =
    let same : suc k - suc (length xs) ≡ k - length xs = omega arith in
    rw same (ap (λ r. x ∷ r) (take-past k xs ys (omega arith)))

-- A read of a field that was cut.
read_full-cut :
    (n k : ℕ) (xs ys : Bytes)
    → n ≡ length xs
    → k < n
    → read_full n (take k (xs ++ ys)) ≡ err (short_error k)
unfolding read_full
read_full-cut n k xs ys h lt =
    let left : length (take k (xs ++ ys)) ≡ k =
      omega (arith, length-take k (xs ++ ys), length-append xs ys) in
    rw (left, lt→ltb k n lt) refl

-- A read of a field that was not cut.
read_full-past :
    (n k : ℕ) (xs ys : Bytes)
    → n ≡ length xs
    → n ≤ k
    → read_full n (take k (xs ++ ys)) ≡ ok (xs, take (k - n) ys)
read_full-past n k xs ys h le =
    ap (read_full n) (take-past k xs ys (omega arith))
    ∙ (read_full-append n xs (take (k - length xs) ys) h
        ∙ ap (λ m. ok (xs, take (k - m) ys)) (sym h))

-- A read and what follows it, on a row of fields that was cut at `k`: the next step need only be
-- known where the field is whole.
then_cut {ℓ} :
    {A : Type ℓ} (n k : ℕ) (xs ys : Bytes) (ns : List ℕ) (f : Bytes × Bytes → Result ReadError A)
    → n ≡ length xs
    → (n ≤ k → f (xs, take (k - n) ys) ≡ err (cut_error ns (k - n)))
    → (read_full n (take k (xs ++ ys)) >>= f) ≡ err (cut_error (n ∷ ns) k)
then_cut n k xs ys ns f h next = elim (Bool-cases (ltb k n)) [
  | inl e ↦ rw (read_full-cut n k xs ys h (ltb→lt k n e), e) refl
  | inr e ↦ rw (read_full-past n k xs ys h (ltb→le k n e), e) (next (ltb→le k n e))
]

>>=_assoc {ℓ κ μ} :
    {A : Type ℓ} {B : Type κ} {C : Type μ} (m : Result ReadError A) (f : A → Result ReadError B)
    (g : B → Result ReadError C)
    → ((m >>= f) >>= g) ≡ (m >>= λ a. (f a >>= g))
>>=_assoc (ok a) f g = refl
>>=_assoc (err e) f g = refl

-- A sized value, whose length was cut, or which was cut, or neither.
then_cut_sized {ℓ} :
    {A : Type ℓ} (width n k : ℕ) (value rest : Bytes) (ns : List ℕ)
    (f : Bytes × Bytes × Bytes → Result ReadError A)
    → n ≡ length value
    → n < 256 ^ width
    → (width ≤ k
        → n ≤ k - width
        → f (le_bytes width n, value, take (k - width - n) rest)
          ≡ err (cut_error ns (k - width - n)))
    → (read_sized width (take k (le_bytes width n ++ (value ++ rest))) >>= f)
      ≡ err (cut_error (width ∷ n ∷ ns) k)
unfolding read_sized
then_cut_sized width n k value rest ns f h lt next =
    let size = le_bytes width n in
    let whole : le_nat size ≡ n = le_nat-le_bytes width n lt in
    >>=_assoc (read_full width (take k (size ++ (value ++ rest)))) _ f
    ∙ then_cut width k size (value ++ rest) (n ∷ ns) _ (sym (length-le_bytes width n)) λ le.
      >>=_assoc (read_full (le_nat size) (take (k - width) (value ++ rest))) _ f
      ∙ rw whole (then_cut n (k - width) value rest ns _ h (next le))

-- The lengths of the fields of an entry, in the order in which they are read.
abbrev pub field_lengths : Entry → List ℕ
field_lengths e =
    4 ∷ 18 ∷ 2 ∷ length e.database ∷ 2 ∷ length e.collection ∷ 4 ∷ length e.documents ∷ []

end_of_read-nil : (error : ReadError) → end_of_read error ≡ ([], (end_of_read error).1)
end_of_read-nil eof = refl
end_of_read-nil unexpected_eof = refl
end_of_read-nil corrupted_entry = refl

module _ (crc32c : Bytes → ℕ) where
  length-row :
      (a b c d f g h : Bytes)
      → length (a ++ (b ++ (c ++ (d ++ (f ++ (g ++ h))))))
        ≡ length a + length b + length c + length d + length f + length g + length h
  length-row a b c d f g h = omega (
    arith,
    length-append a (b ++ (c ++ (d ++ (f ++ (g ++ h))))),
    length-append b (c ++ (d ++ (f ++ (g ++ h)))),
    length-append c (d ++ (f ++ (g ++ h))),
    length-append d (f ++ (g ++ h)),
    length-append f (g ++ h),
    length-append g h,
  )

  pub length-serialize_entry :
      (e : Entry)
      → length (serialize_entry crc32c e)
        ≡ 30 + length e.database + length e.collection + length e.documents
  unfolding serialize_entry entry_payload entry_header
  length-serialize_entry e = omega (
    arith,
    length-row (entry_header e) (le_bytes 2 (length e.database % 2 ^ 16)) e.database
        (le_bytes 2 (length e.collection % 2 ^ 16)) e.collection
        (le_bytes 4 (length e.documents % 2 ^ 32)) e.documents,
  )

  -- An entry in range that is cut anywhere, at `k` bytes of it, is read as no entry and never as
  -- a corrupted one: the read ends as at the end of the file if `k` is where a nonempty field
  -- begins, and with an unexpected end of the file if it is inside a field.
  pub read_entry-cut :
      (e : Entry) (k : ℕ)
      → Fits e
      → k < length (serialize_entry crc32c e)
      → read_entry crc32c (take k (serialize_entry crc32c e)) ≡ err (cut_error (field_lengths e) k)
  unfolding read_entry
  read_entry-cut e k f lt =
      let sum = crc32c (entry_payload e) in
      let n1 : length e.database % 2 ^ 16 ≡ length e.database = omega (arith, f.database_fits) in
      let n2 : length e.collection % 2 ^ 16 ≡ length e.collection =
        omega (arith, f.collection_fits) in
      let n3 : length e.documents % 2 ^ 32 ≡ length e.documents = omega (arith, f.documents_fits) in
      let docs = le_bytes 4 (length e.documents) ++ (e.documents ++ []) in
      let coll = le_bytes 2 (length e.collection) ++ (e.collection ++ docs) in
      let db = le_bytes 2 (length e.database) ++ (e.database ++ coll) in
      let row : serialize_entry crc32c e ≡ le_bytes 4 sum ++ (entry_header e ++ db) =
        sym (append-nil (serialize_entry crc32c e))
        ∙ (serialize_entry-append crc32c e [] ∙ rw (n1, n2, n3) refl) in
      let ns1 : List ℕ = 4 ∷ length e.documents ∷ [] in
      let ns2 : List ℕ = 2 ∷ length e.collection ∷ ns1 in
      let ns3 : List ℕ = 2 ∷ length e.database ∷ ns2 in
      let k1 = k - 4 - 18 in
      let k2 = k1 - 2 - length e.database in
      let k3 = k2 - 2 - length e.collection in
      rw row (
        then_cut 4 k (le_bytes 4 sum) (entry_header e ++ db) (18 ∷ ns3) _
          (sym (length-le_bytes 4 sum))
          λ le1. then_cut 18 (k - 4) (entry_header e) db ns3 _ (sym (length-entry_header e)) λ le2.
            then_cut_sized 2 (length e.database) k1 e.database coll ns2 _ refl
              (omega (arith, f.database_fits))
              λ le3 le4.
                then_cut_sized 2 (length e.collection) k2 e.collection docs ns1 _ refl
                  (omega (arith, f.collection_fits))
                  λ le5 le6.
                    then_cut_sized 4 (length e.documents) k3 e.documents [] [] _ refl
                      (omega (arith, f.documents_fits))
                      λ le7 le8. absurd (omega (arith, lt, length-serialize_entry e)))

  module _ (crc32c-lt : (xs : Bytes) → crc32c xs < 256 ^ 4) where
    -- A segment of entries in range that ends in an entry which was cut off, at `k` bytes of it,
    -- gives all the entries before it, as they were. The cut entry is left out without an error
    -- if `k` is where a nonempty field of it begins, and otherwise the read fails with an
    -- unexpected end of the file.
    pub read_segment-torn :
        (es : List Entry) (e : Entry) (k fuel : ℕ)
        → All Fits es
        → Fits e
        → k < length (serialize_entry crc32c e)
        → length es < fuel
        → read_segment crc32c fuel (serialized crc32c es ++ take k (serialize_entry crc32c e))
          ≡ some (es, (end_of_read (cut_error (field_lengths e) k)).1)
    unfolding serialized
    read_segment-torn [] e k zero fs f lt le = absurd (omega arith)
    read_segment-torn [] e k (suc fuel) fs f lt le =
        read_segment_end crc32c fuel (take k (serialize_entry crc32c e)) _ (read_entry-cut e k f lt)
        ∙ ap some (end_of_read-nil (cut_error (field_lengths e) k))
    read_segment-torn (x ∷ es) e k zero fs f lt le = absurd (omega arith)
    read_segment-torn (x ∷ es) e k (suc fuel) fs f lt le =
        let tail = take k (serialize_entry crc32c e) in
        rw (append_assoc (serialize_entry crc32c x) (serialized crc32c es) tail) (
          read_segment_entry crc32c fuel _ _ x
            (read_entry-serialize_entry crc32c crc32c-lt x (serialized crc32c es ++ tail) fs.0)
          ∙ ap (cons_entry x) (read_segment-torn es e k fuel fs.1 f lt (omega arith)))
