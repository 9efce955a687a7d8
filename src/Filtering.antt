-- ===== src/Filtering.antt =====
-- pkg/filtering/filter.go and `FieldFilter` of pkg/models/config.go: which fields of a document are
-- kept. A string is its bytes. A Go map is a list of keys and values in which a key stands once; a
-- `range` over it takes any order of that list. The values are of any type.
pub mod Kept
pub mod Projection
pub mod Document
pub mod Overrides
mod Tests
use go_mongo_sync.Prelude.{
  ℕ, Bool, true, false, Option, none, some, List, [], ◌∷◌, ◌++◌, ◌||◌, if◌then◌else◌,
}
use go_mongo_sync.Prelude.Bytes.{Bytes, bytes_eq}
use go_mongo_sync.Prelude.Maps.{lookup, assign}

pub record FieldFilter : Type 0 where
  pub include_fields : List Bytes
  pub exclude_fields : List Bytes
  pub always_include : List Bytes

-- "_id"
abbrev pub id_field : Bytes
id_field = 95 ∷ 105 ∷ 100 ∷ []

abbrev pub is_empty {ℓ} : {A : Type ℓ} → List A → Bool
is_empty [] = true
is_empty (x ∷ xs) = false

unfoldable pub is_listed : Bytes → List Bytes → Bool
is_listed field [] = false
is_listed field (f ∷ fs) = bytes_eq field f || is_listed field fs

module _ {ℓ} {V : Type ℓ} where
  -- `if value, exists := doc[field]; exists { filteredDoc[field] = value }`
  abbrev pub copy_value : Bytes → Option V → List (Bytes × V) → List (Bytes × V)
  copy_value field none filtered = filtered
  copy_value field (some v) filtered = assign field v filtered

  unfoldable pub copy_field : Bytes → List (Bytes × V) → List (Bytes × V) → List (Bytes × V)
  copy_field field doc filtered = copy_value field (lookup field doc) filtered

  -- The loop over `AlwaysInclude`.
  unfoldable pub copy_fields : List Bytes → List (Bytes × V) → List (Bytes × V) → List (Bytes × V)
  copy_fields [] doc filtered = filtered
  copy_fields (f ∷ fs) doc filtered = copy_fields fs doc (copy_field f doc filtered)

  -- The loop over `IncludeFields`.
  unfoldable pub copy_included : List Bytes → List (Bytes × V) → List (Bytes × V) → List (Bytes × V)
  copy_included [] doc filtered = filtered
  copy_included (f ∷ fs) doc filtered =
      copy_included fs doc (if bytes_eq f id_field then filtered else copy_field f doc filtered)

  -- The loop over the document, without the fields of a list.
  unfoldable pub copy_others : List Bytes → List (Bytes × V) → List (Bytes × V) → List (Bytes × V)
  copy_others excluded [] filtered = filtered
  copy_others excluded ((k, v) ∷ doc) filtered =
      copy_others excluded doc (if is_listed k excluded then filtered else assign k v filtered)

  -- `ApplyFieldFilter`; `none` is a filter that is nil.
  unfoldable pub apply_field_filter : Option FieldFilter → List (Bytes × V) → List (Bytes × V)
  apply_field_filter none doc = doc
  apply_field_filter (some f) doc =
      let filtered = copy_fields f.always_include doc (copy_field id_field doc []) in
      if is_empty f.include_fields
      then copy_others f.exclude_fields doc filtered
      else copy_included f.include_fields doc filtered

abbrev mark_fields : ℕ → List Bytes → List (Bytes × ℕ) → List (Bytes × ℕ)
mark_fields n [] project = project
mark_fields n (f ∷ fs) project = mark_fields n fs (assign f n project)

-- `BuildFieldFilterPipeline`: the `$project` stage, if there is one, by its fields.
unfoldable pub build_field_filter_pipeline : Option FieldFilter → List (List (Bytes × ℕ))
build_field_filter_pipeline none = []
build_field_filter_pipeline (some f) =
    if is_empty f.include_fields
    then (if is_empty f.exclude_fields
        then []
        else mark_fields 1 f.always_include (mark_fields 0 f.exclude_fields []) ∷ [])
    else mark_fields 1 f.always_include (mark_fields 1 f.include_fields []) ∷ []
