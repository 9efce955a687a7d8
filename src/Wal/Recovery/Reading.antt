-- ===== src/Wal/Recovery/Reading.antt =====
-- pkg/wal: reading the files of a log.
use go_mongo_sync.Prelude.{
  ℕ, zero, suc, ◌+◌, ◌^◌, ◌≤◌, ◌<◌, ◌≡◌, ◌≢◌, refl, Bool, true, false, Bool-cases, inl, inr, Option,
  none, some, List, [], ◌∷◌, ltb, if◌then◌else◌, length, All, arith, length-append, length-drop,
  ltb→le,
}
use go_mongo_sync.Prelude.Bytes.{Bytes, le_nat}
use go_mongo_sync.Prelude.Result.{Result, ok, err, ◌>>=◌}
use go_mongo_sync.Wal.Segment.{
  Entry, ReadError, SegmentRead, read_full, read_sized, read_entry, read_segment, cons_entry,
  serialize_entry, serialized,
}
use go_mongo_sync.Wal.Segment.RoundTrip.{
  Fits, read_segment-serialized, read_segment_entry, read_segment_end,
}
use go_mongo_sync.Wal.Segment.Torn.{length-serialize_entry}
use go_mongo_sync.Wal.Recovery.{read_file}

-- A read that succeeds leaves at least `n` bytes fewer than there were.
abbrev Leaves {ℓ} : {A : Type ℓ} → (A → Bytes) → ℕ → Bytes → Result ReadError A → Type 0
Leaves rest n file (ok a) = length (rest a) + n ≤ length file
Leaves rest n file (err e) = Unit

Leaves-bind {ℓ κ} :
    {A : Type ℓ} {B : Type κ} (rest_a : A → Bytes) (rest_b : B → Bytes) (n : ℕ) (file : Bytes)
    (m : Result ReadError A) (f : A → Result ReadError B)
    → Leaves rest_a n file m
    → ((a : A) → Leaves rest_b 0 (rest_a a) (f a))
    → Leaves rest_b n file (m >>= f)
Leaves-bind rest_a rest_b n file (err e) f h next = tt
Leaves-bind rest_a rest_b n file (ok a) f h next = go (f a) (next a)
  where
    go : (r : Result ReadError _) → Leaves rest_b 0 (rest_a a) r → Leaves rest_b n file r
    go (ok b) k = omega arith
    go (err e) k = tt

Leaves-weaken {ℓ} :
    {A : Type ℓ} (rest : A → Bytes) (n : ℕ) (file : Bytes) (m : Result ReadError A)
    → Leaves rest n file m
    → Leaves rest 0 file m
Leaves-weaken rest n file (ok a) h = omega arith
Leaves-weaken rest n file (err e) h = tt

read_full-Leaves :
    (n : ℕ) (file : Bytes) → Leaves (λ (p : Bytes × Bytes). p.1) n file (read_full n file)
unfolding read_full
read_full-Leaves n file = elim (Bool-cases (ltb (length file) n)) [
  | inl e ↦ rw e tt
  | inr e ↦ rw e (omega (arith, ltb→le _ _ e, length-drop n file))
]

abbrev rest_full : Bytes × Bytes → Bytes
rest_full p = p.1

abbrev rest_sized : Bytes × Bytes × Bytes → Bytes
rest_sized p = p.2

abbrev rest_entry : Entry × Bytes → Bytes
rest_entry p = p.1

step_full {ℓ} :
    {B : Type ℓ} (rest_b : B → Bytes) (n : ℕ) (file : Bytes)
    (f : Bytes × Bytes → Result ReadError B)
    → ((a : Bytes × Bytes) → Leaves rest_b 0 a.1 (f a))
    → Leaves rest_b n file (read_full n file >>= f)
step_full rest_b n file f next =
    Leaves-bind rest_full rest_b n file (read_full n file) f (read_full-Leaves n file) next

step_full_any {ℓ} :
    {B : Type ℓ} (rest_b : B → Bytes) (n : ℕ) (file : Bytes)
    (f : Bytes × Bytes → Result ReadError B)
    → ((a : Bytes × Bytes) → Leaves rest_b 0 a.1 (f a))
    → Leaves rest_b 0 file (read_full n file >>= f)
step_full_any rest_b n file f next =
    Leaves-weaken rest_b n file (read_full n file >>= f) (step_full rest_b n file f next)

read_sized-Leaves : (width : ℕ) (file : Bytes) → Leaves rest_sized 0 file (read_sized width file)
unfolding read_sized
read_sized-Leaves width file =
    step_full_any rest_sized width file _
      λ a. step_full_any rest_sized (le_nat a.0) a.1 _ λ b. omega arith

step_sized {ℓ} :
    {B : Type ℓ} (rest_b : B → Bytes) (n : ℕ) (file : Bytes)
    (f : Bytes × Bytes × Bytes → Result ReadError B)
    → ((a : Bytes × Bytes × Bytes) → Leaves rest_b 0 a.2 (f a))
    → Leaves rest_b 0 file (read_sized n file >>= f)
step_sized rest_b n file f next =
    Leaves-bind rest_sized rest_b 0 file (read_sized n file) f (read_sized-Leaves n file) next

module _ (crc32c : Bytes → ℕ) where
  if-Leaves :
      (b : Bool) (e : Entry) (rest : Bytes) (error : ReadError)
      → Leaves rest_entry 0 rest (if b then ok (e, rest) else err error)
  if-Leaves true e rest error = omega arith
  if-Leaves false e rest error = tt

  read_entry-Leaves : (file : Bytes) → Leaves rest_entry 4 file (read_entry crc32c file)
  unfolding read_entry
  read_entry-Leaves file = step_full rest_entry 4 file _ λ a. step_full_any rest_entry 18 a.1 _ λ b.
      step_sized rest_entry 2 b.1 _ λ c.
        step_sized rest_entry 2 c.2 _ λ d. step_sized rest_entry 4 d.2 _ λ g. if-Leaves _ _ g.2 _

  cons_entry-ne-none : (e : Entry) (r : Option SegmentRead) → r ≢ none → cons_entry e r ≢ none
  cons_entry-ne-none e none h = λ n. h refl
  cons_entry-ne-none e (some r) h = λ n. cc n

  round_total :
      (fuel : ℕ) (file : Bytes) (r : Result ReadError (Entry × Bytes))
      → read_entry crc32c file ≡ r
      → Leaves rest_entry 4 file r
      → ((rest : Bytes) → length rest < length file → read_segment crc32c fuel rest ≢ none)
      → read_segment crc32c (suc fuel) file ≢ none
  round_total fuel file (ok (e, rest)) h l next =
      rw (read_segment_entry crc32c fuel file rest e h)
        (cons_entry-ne-none e _ (next rest (omega arith)))
  round_total fuel file (err error) h l next =
      rw (read_segment_end crc32c fuel file error h) (λ n. cc n)

  -- The loop of `ReadSegment` ends, whatever the bytes of the file are, within one round more
  -- than there are bytes.
  read_segment_total :
      (fuel : ℕ) (file : Bytes) → length file < fuel → read_segment crc32c fuel file ≢ none
  read_segment_total zero file h = absurd (omega arith)
  read_segment_total (suc fuel) file h =
      round_total fuel file (read_entry crc32c file) refl (read_entry-Leaves file)
        (λ rest l. read_segment_total fuel rest (omega arith))

  pub length-serialized : (es : List Entry) → length es ≤ length (serialized crc32c es)
  unfolding serialized
  length-serialized [] = omega arith
  length-serialized (e ∷ es) = omega (
    arith,
    length-serialized es,
    length-append (serialize_entry crc32c e) (serialized crc32c es),
    length-serialize_entry crc32c e,
  )

  module _ (crc32c-lt : (xs : Bytes) → crc32c xs < 256 ^ 4) where
    pub read_file-serialized :
        (es : List Entry) → All Fits es → read_file crc32c (serialized crc32c es) ≡ some (es, none)
    unfolding read_file
    read_file-serialized es f =
        read_segment-serialized crc32c crc32c-lt es (length (serialized crc32c es) + 1) f
          (omega (arith, length-serialized es))
