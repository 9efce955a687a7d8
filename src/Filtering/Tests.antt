-- ===== src/Filtering/Tests.antt =====
-- The theorems on filters at concrete inputs.
use go_mongo_sync.Prelude.{ℕ, ◌≡◌, refl, none, some, List, [], ◌∷◌, if◌then◌else◌, Option}
use go_mongo_sync.Prelude.Bytes.{Bytes}
use go_mongo_sync.Prelude.Maps.{lookup, assign, IsMap}
use go_mongo_sync.Filtering.{
  FieldFilter, id_field, is_listed, apply_field_filter, copy_field, copy_fields, copy_others,
}
use go_mongo_sync.Filtering.Document.{
  Dynamic, FilterCriteria, Operator, MatchValue, condition_of, operator_of, converted_value,
  is_id_field, match_conditions,
}
use go_mongo_sync.Filtering.Overrides.{Alike, earlier_criterion_lost}
use go_mongo_sync.Filtering.Kept.{kept, lookup-apply_field_filter}

-- "a", "b" and "c"
abbrev field_a : Bytes
field_a = 97 ∷ []

abbrev field_b : Bytes
field_b = 98 ∷ []

abbrev field_c : Bytes
field_c = 99 ∷ []

abbrev document : List (Bytes × ℕ)
document = (field_a, 1) ∷ (field_b, 2) ∷ (id_field, 3) ∷ (field_c, 4) ∷ []

abbrev without_a : FieldFilter
without_a = record {
  include_fields = [];
  exclude_fields = field_a ∷ field_b ∷ [];
  always_include = field_b ∷ [];
}

abbrev only_a : FieldFilter
only_a = record {
  include_fields = field_a ∷ [];
  exclude_fields = [];
  always_include = field_b ∷ [];
}

document-IsMap : IsMap document
unfolding IsMap lookup
document-IsMap = (refl, (refl, (refl, (refl, tt))))

document_filtered :
    apply_field_filter (some without_a) document ≡ (id_field, 3) ∷ (field_b, 2) ∷ (field_c, 4) ∷ []
unfolding apply_field_filter copy_fields copy_field copy_others assign lookup is_listed
document_filtered = refl

lookup-apply_field_filter_example :
    lookup field_b (apply_field_filter (some without_a) document)
    ≡ (if kept without_a field_b then lookup field_b document else none)
lookup-apply_field_filter_example =
    lookup-apply_field_filter without_a document field_b document-IsMap

-- A price above 5 and below 9, of type `int`.
abbrev int_value : Dynamic ℕ
int_value = record { text = λ n. none; slice_length = λ n. none; interfaces = λ n. none }

abbrev above : FilterCriteria ℕ
above = record { field = field_a; operator = 103 ∷ 116 ∷ []; value = 5 }

abbrev below : FilterCriteria ℕ
below = record { field = field_a; operator = 108 ∷ 116 ∷ []; value = 9 }

abbrev no_hex : Bytes → Option ℕ
no_hex s = none

below_condition :
    condition_of int_value (λ s. s) no_hex below ≡ some (Operator.less, MatchValue.plain 9)
unfolding condition_of operator_of converted_value is_id_field
below_condition = refl

earlier_criterion_lost_example :
    Alike
      (match_conditions int_value (λ s. s) no_hex [] (above ∷ below ∷ []) [])
      (match_conditions int_value (λ s. s) no_hex [] (below ∷ []) [])
earlier_criterion_lost_example =
    earlier_criterion_lost int_value (λ s. s) no_hex [] [] [] [] above below
      (Operator.less, MatchValue.plain 9) refl below_condition
