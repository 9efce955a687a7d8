-- ===== src/Filtering/Document.antt =====
-- pkg/filtering/filter.go, `FilterCriteria` and `DocumentFilter` of pkg/models/config.go: the
-- conditions that a document filter gives to the database. What Go says of the dynamic type of a
-- value is a record of functions on values; `strings.ToLower` and `primitive.ObjectIDFromHex` are
-- parameters. The value of a criterion is not nil (`in` and `nin` panic on nil).
use go_mongo_sync.Prelude.{
  ℕ, ◌-◌, Bool, Option, none, some, List, [], ◌∷◌, ◌++◌, ◌&&◌, ◌||◌, leb, ◌==◌, if◌then◌else◌,
  length, drop,
}
use go_mongo_sync.Prelude.Bytes.{Bytes, bytes_eq}
use go_mongo_sync.Prelude.Maps.{assign}
use go_mongo_sync.Filtering.{id_field, is_empty}

-- What the code asks of a value of type `interface{}`.
pub record Dynamic {ℓ} (V : Type ℓ) : Type ℓ where
  -- `value.(string)`
  pub text : V → Option Bytes
  -- its length, if it is a slice of any type
  pub slice_length : V → Option ℕ
  -- `value.([]interface{})`
  pub interfaces : V → Option (List V)

pub record FilterCriteria {ℓ} (V : Type ℓ) : Type ℓ where
  pub field : Bytes
  pub operator : Bytes
  pub value : V

pub data Operator : Type 0 where
  equal not_equal in_slice not_in greater greater_equal less less_equal matches : Operator

-- The operators by their names: "ne", "in", "nin", "gt", "gte", "lt", "lte" and "regex"; "eq" is as any other.
unfoldable pub operator_of : Bytes → Operator
operator_of name =
    if bytes_eq name (110 ∷ 101 ∷ [])
    then not_equal
    else if bytes_eq name (105 ∷ 110 ∷ [])
    then in_slice
    else if bytes_eq name (110 ∷ 105 ∷ 110 ∷ [])
    then not_in
    else if bytes_eq name (103 ∷ 116 ∷ [])
    then greater
    else if bytes_eq name (103 ∷ 116 ∷ 101 ∷ [])
    then greater_equal
    else if bytes_eq name (108 ∷ 116 ∷ [])
    then less
    else if bytes_eq name (108 ∷ 116 ∷ 101 ∷ [])
    then less_equal
    else if bytes_eq name (114 ∷ 101 ∷ 103 ∷ 101 ∷ 120 ∷ [])
    then matches
    else equal

abbrev has_suffix : Bytes → Bytes → Bool
has_suffix s suffix =
    leb (length suffix) (length s) && bytes_eq (drop (length s - length suffix) s) suffix

-- The field "_id", or one that ends in "._id".
unfoldable pub is_id_field : Bytes → Bool
is_id_field field = bytes_eq field id_field || has_suffix field (46 ∷ id_field)

pub data MatchValue {ℓ} (V : Type ℓ) (O : Type 0) : Type ℓ where
  plain : V → MatchValue V O
  object_id : O → MatchValue V O
  object_ids : List O → MatchValue V O

module _ {ℓ} {V : Type ℓ} {O : Type 0} where
  abbrev pub put_condition :
      Bytes
      → Option (Operator × MatchValue V O)
      → List (Bytes × (Operator × MatchValue V O))
      → List (Bytes × (Operator × MatchValue V O))
  put_condition name none conditions = conditions
  put_condition name (some d) conditions = assign name d conditions

module _ {ℓ} {V : Type ℓ} {O : Type 0} (dynamic : Dynamic V) (to_lower : Bytes → Bytes)
    (object_id_from_hex : Bytes → Option O) where
  abbrev hex_of : Option Bytes → Option O
  hex_of none = none
  hex_of (some s) = object_id_from_hex s

  unfoldable pub converted_value : FilterCriteria V → MatchValue V O
  unfolding is_id_field
  converted_value c =
      if is_id_field c.field
      then elim (hex_of (dynamic.text c.value)) [ none ↦ plain c.value | some o ↦ object_id o ]
      else plain c.value

  abbrev cons_id : Option O → Option (List O) → Option (List O)
  cons_id none os = none
  cons_id (some o) none = none
  cons_id (some o) (some os) = some (o ∷ os)

  -- The ids of a slice, if all of its items are some.
  unfoldable pub object_ids_of : List V → Option (List O)
  object_ids_of [] = some []
  object_ids_of (v ∷ vs) = cons_id (hex_of (dynamic.text v)) (object_ids_of vs)

  abbrev ids_or : V → Option (List O) → MatchValue V O
  ids_or v none = plain v
  ids_or v (some []) = plain v
  ids_or v (some (o ∷ os)) = object_ids (o ∷ os)

  unfoldable pub slice_values : FilterCriteria V → MatchValue V O
  unfolding is_id_field object_ids_of
  slice_values c =
      if is_id_field c.field
      then elim (dynamic.interfaces c.value) [
        | none ↦ plain c.value
        | some vs ↦ ids_or c.value (object_ids_of vs)
      ]
      else plain c.value

  -- The condition of `in` and `nin`; one on no slice or an empty one is left out.
  unfoldable pub slice_condition : Operator → FilterCriteria V → Option (Operator × MatchValue V O)
  slice_condition op c = elim (dynamic.slice_length c.value) [
    | none ↦ none
    | some n ↦ if n == 0 then none else some (op, slice_values c)
  ]

  abbrev condition_by : Operator → FilterCriteria V → Option (Operator × MatchValue V O)
  condition_by in_slice c = slice_condition in_slice c
  condition_by not_in c = slice_condition not_in c
  condition_by matches c = some (matches, plain c.value)
  condition_by equal c = some (equal, converted_value c)
  condition_by not_equal c = some (not_equal, converted_value c)
  condition_by greater c = some (greater, converted_value c)
  condition_by greater_equal c = some (greater_equal, converted_value c)
  condition_by less c = some (less, converted_value c)
  condition_by less_equal c = some (less_equal, converted_value c)

  -- The condition of a criterion, if it gives one.
  unfoldable pub condition_of : FilterCriteria V → Option (Operator × MatchValue V O)
  condition_of c = condition_by (operator_of (to_lower c.operator)) c

  -- The loop over the criteria.
  unfoldable pub match_conditions :
      Bytes
      → List (FilterCriteria V)
      → List (Bytes × (Operator × MatchValue V O))
      → List (Bytes × (Operator × MatchValue V O))
  match_conditions prefix [] conditions = conditions
  match_conditions prefix (c ∷ cs) conditions =
      match_conditions prefix cs (put_condition (prefix ++ c.field) (condition_of c) conditions)

  -- `buildDocumentFilterPipelineWithPrefix`: the `$match` stage, if there is one, by its fields. A
  -- filter that is nil has no criteria.
  unfoldable pub build_document_filter_pipeline :
      Bytes → List (FilterCriteria V) → List (List (Bytes × (Operator × MatchValue V O)))
  build_document_filter_pipeline prefix criteria =
      let conditions = match_conditions prefix criteria [] in
      if is_empty conditions then [] else conditions ∷ []
