-- ===== src/Filtering/Projection.antt =====
-- pkg/filtering/filter.go: the projection of a field filter.
use go_mongo_sync.Prelude.{
  ℕ, ◌≡◌, ◌≢◌, refl, sym, ◌∙◌, Bool, true, false, Option, none, some, List, [], ◌∷◌, ◌||◌,
  if◌then◌else◌,
}
use go_mongo_sync.Prelude.Bytes.{Bytes, bytes_eq}
use go_mongo_sync.Prelude.Maps.{lookup, assign, lookup-assign}
use go_mongo_sync.Filtering.{
  FieldFilter, id_field, is_empty, is_listed, mark_fields, build_field_filter_pipeline,
}
use go_mongo_sync.Filtering.Kept.{kept}

mark_step :
    (b c : Bool) (n : ℕ) (o : Option ℕ)
    → (if c then some n else if b then some n else o) ≡ (if b || c then some n else o)
mark_step true true n o = refl
mark_step true false n o = refl
mark_step false true n o = refl
mark_step false false n o = refl

lookup-mark_fields :
    (n : ℕ) (fs : List Bytes) (project : List (Bytes × ℕ)) (key : Bytes)
    → lookup key (mark_fields n fs project)
      ≡ (if is_listed key fs then some n else lookup key project)
unfolding is_listed
lookup-mark_fields n [] project key = refl
lookup-mark_fields n (f ∷ fs) project key =
    lookup-mark_fields n fs (assign f n project) key
    ∙ rw (lookup-assign key f n project)
        (mark_step (bytes_eq key f) (is_listed key fs) n (lookup key project))

abbrev pub is_some : Option ℕ → Bool
is_some none = false
is_some (some n) = true

abbrev mark_of : Bool → Bool → Option ℕ
mark_of always included = if always then some 1 else if included then some 1 else none

marks_kept :
    (is_id always included : Bool)
    → (mark_of always included ≢ some 0)
      × (((is_id || always) || included) ≡ (is_id || is_some (mark_of always included)))
marks_kept true true included = (λ h. cc h, refl)
marks_kept true false true = (λ h. cc h, refl)
marks_kept true false false = (λ h. cc h, refl)
marks_kept false true included = (λ h. cc h, refl)
marks_kept false false true = (λ h. cc h, refl)
marks_kept false false false = (λ h. cc h, refl)

listed-nonempty :
    (field : Bytes) (fs : List Bytes) → is_listed field fs ≡ true → is_empty fs ≡ false
unfolding is_listed
listed-nonempty field [] h = sym h
listed-nonempty field (f ∷ fs) h = refl

-- Where a filter names fields to include, the stage that it gives to the database is one projection
-- with no field at 0. The fields that it marks are just those that `ApplyFieldFilter` keeps, but for
-- the id.
projection_keeps :
    (f : FieldFilter)
    → is_empty f.include_fields ≡ false
    → (project : List (Bytes × ℕ)) × (build_field_filter_pipeline (some f) ≡ project ∷ [])
      × ((key : Bytes)
          → (lookup key project ≢ some 0)
            × (kept f key ≡ (bytes_eq key id_field || is_some (lookup key project))))
unfolding build_field_filter_pipeline lookup
projection_keeps f e = (
  mark_fields 1 f.always_include (mark_fields 1 f.include_fields []),
  rw e refl,
  λ key.
      rw
        (
          e,
          lookup-mark_fields 1 f.always_include (mark_fields 1 f.include_fields []) key,
          lookup-mark_fields 1 f.include_fields [] key,
        )
        (marks_kept (bytes_eq key id_field) (is_listed key f.always_include)
          (is_listed key f.include_fields)),
)

-- Where a filter names none to include, a field that is always included and another that is excluded
-- and not always included, the one stage marks the first with 1 and the second with 0: it is neither an
-- inclusion nor an exclusion projection.
projection_mixes :
    (f : FieldFilter) (always excluded : Bytes)
    → is_empty f.include_fields ≡ true
    → is_listed always f.always_include ≡ true
    → is_listed excluded f.exclude_fields ≡ true
    → is_listed excluded f.always_include ≡ false
    → (project : List (Bytes × ℕ)) × (build_field_filter_pipeline (some f) ≡ project ∷ [])
      × (lookup always project ≡ some 1)
      × (lookup excluded project ≡ some 0)
unfolding build_field_filter_pipeline is_listed
projection_mixes f always excluded e a x n = (
  mark_fields 1 f.always_include (mark_fields 0 f.exclude_fields []),
  rw (e, listed-nonempty excluded f.exclude_fields x) refl,
  lookup-mark_fields 1 f.always_include _ always ∙ rw a refl,
  lookup-mark_fields 1 f.always_include _ excluded
      ∙ rw (n, lookup-mark_fields 0 f.exclude_fields [] excluded, x) refl,
)
