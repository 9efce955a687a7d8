-- ===== src/Filtering/Overrides.antt =====
-- pkg/filtering/filter.go: criteria of one document filter on the same field.
use go_mongo_sync.Prelude.{
  ◌≡◌, refl, sym, ap, ◌∙◌, Bool, true, false, Option, none, some, List, [], ◌∷◌, ◌++◌,
  if◌then◌else◌,
}
use go_mongo_sync.Prelude.Bytes.{Bytes, bytes_eq}
use go_mongo_sync.Prelude.Maps.{lookup, assign, lookup-assign}
use go_mongo_sync.Filtering.Document.{
  Dynamic, FilterCriteria, Operator, MatchValue, condition_of, put_condition, match_conditions,
}

module _ {ℓ} {A : Type ℓ} where
  -- Maps that hold the same but at one key, or everywhere.
  abbrev Apart : Bytes → List (Bytes × A) → List (Bytes × A) → Type ℓ
  Apart k m m' = (key : Bytes) → bytes_eq key k ≡ false → lookup key m ≡ lookup key m'

  abbrev pub Alike : List (Bytes × A) → List (Bytes × A) → Type ℓ
  Alike m m' = (key : Bytes) → lookup key m ≡ lookup key m'

  assign-Alike :
      (k : Bytes) (v : A) (m m' : List (Bytes × A))
      → Alike m m'
      → Alike (assign k v m) (assign k v m')
  assign-Alike k v m m' h key = rw (lookup-assign key k v m, lookup-assign key k v m', h key) refl

  assign-Apart :
      (j k : Bytes) (v : A) (m m' : List (Bytes × A))
      → Apart k m m'
      → Apart k (assign j v m) (assign j v m')
  assign-Apart j k v m m' h key e =
      rw (lookup-assign key j v m, lookup-assign key j v m', h key e) refl

  -- Assigning at the key where two maps differ makes them alike.
  assign-closes :
      (k : Bytes) (v : A) (m m' : List (Bytes × A))
      → Apart k m m'
      → Alike (assign k v m) (assign k v m')
  assign-closes k v m m' h key =
      rw (lookup-assign key k v m, lookup-assign key k v m') (at (bytes_eq key k) refl)
    where
      at :
          (b : Bool)
          → bytes_eq key k ≡ b
          → (if b then some v else lookup key m) ≡ (if b then some v else lookup key m')
      at true e = refl
      at false e = h key e

module _ {ℓ} {V : Type ℓ} {O : Type 0} (dynamic : Dynamic V) (to_lower : Bytes → Bytes)
    (object_id_from_hex : Bytes → Option O) where
  -- The conditions by field.
  abbrev pub Conditions : Type ℓ
  Conditions = List (Bytes × (Operator × MatchValue V O))

  abbrev condition : FilterCriteria V → Option (Operator × MatchValue V O)
  condition c = condition_of dynamic to_lower object_id_from_hex c

  abbrev conditions_from : Bytes → List (FilterCriteria V) → Conditions → Conditions
  conditions_from prefix cs m = match_conditions dynamic to_lower object_id_from_hex prefix cs m

  match_conditions-append :
      (prefix : Bytes) (cs ds : List (FilterCriteria V)) (m : Conditions)
      → conditions_from prefix (cs ++ ds) m
        ≡ conditions_from prefix ds (conditions_from prefix cs m)
  unfolding match_conditions
  match_conditions-append prefix [] ds m = refl
  match_conditions-append prefix (c ∷ cs) ds m = match_conditions-append prefix cs ds _

  put_condition-Alike :
      (name : Bytes) (d : Option (Operator × MatchValue V O)) (m m' : Conditions)
      → Alike m m'
      → Alike (put_condition name d m) (put_condition name d m')
  put_condition-Alike name none m m' h = h
  put_condition-Alike name (some d) m m' h = assign-Alike name d m m' h

  put_condition-Apart :
      (name k : Bytes) (d : Option (Operator × MatchValue V O)) (m m' : Conditions)
      → Apart k m m'
      → Apart k (put_condition name d m) (put_condition name d m')
  put_condition-Apart name k none m m' h = h
  put_condition-Apart name k (some d) m m' h = assign-Apart name k d m m' h

  put_condition-leaves :
      (name : Bytes) (d : Option (Operator × MatchValue V O)) (m : Conditions)
      → Apart name (put_condition name d m) m
  put_condition-leaves name none m key e = refl
  put_condition-leaves name (some d) m key e = lookup-assign key name d m ∙ rw e refl

  match_conditions-Alike :
      (prefix : Bytes) (cs : List (FilterCriteria V)) (m m' : Conditions)
      → Alike m m'
      → Alike (conditions_from prefix cs m) (conditions_from prefix cs m')
  unfolding match_conditions
  match_conditions-Alike prefix [] m m' h = h
  match_conditions-Alike prefix (c ∷ cs) m m' h =
      match_conditions-Alike prefix cs _ _
        (put_condition-Alike (prefix ++ c.field) (condition c) m m' h)

  match_conditions-Apart :
      (prefix k : Bytes) (cs : List (FilterCriteria V)) (m m' : Conditions)
      → Apart k m m'
      → Apart k (conditions_from prefix cs m) (conditions_from prefix cs m')
  unfolding match_conditions
  match_conditions-Apart prefix k [] m m' h = h
  match_conditions-Apart prefix k (c ∷ cs) m m' h =
      match_conditions-Apart prefix k cs _ _
        (put_condition-Apart (prefix ++ c.field) k (condition c) m m' h)

  -- A later criterion with a condition makes maps alike that differ at its field alone.
  later-Alike :
      (prefix k : Bytes) (d : FilterCriteria V) (ds : List (FilterCriteria V))
      (x : Operator × MatchValue V O) (m m' : Conditions)
      → k ≡ prefix ++ d.field
      → condition d ≡ some x
      → Apart k m m'
      → Alike (conditions_from prefix (d ∷ ds) m) (conditions_from prefix (d ∷ ds) m')
  unfolding match_conditions
  later-Alike prefix k d ds x m m' same given h =
      match_conditions-Alike prefix ds _ _ (rw (given, sym same) (assign-closes k x m m' h))

  -- A criterion is lost where a later one with a condition is on the same field, whatever their
  -- operators and the criteria around them: the database is given just the conditions that it
  -- would be given without the first.
  pub earlier_criterion_lost :
      (prefix : Bytes) (before between after : List (FilterCriteria V)) (c d : FilterCriteria V)
      (x : Operator × MatchValue V O)
      → c.field ≡ d.field
      → condition_of dynamic to_lower object_id_from_hex d ≡ some x
      → Alike
          (match_conditions dynamic to_lower object_id_from_hex prefix
            (before ++ (c ∷ between ++ (d ∷ after)))
            [])
          (match_conditions dynamic to_lower object_id_from_hex prefix
            (before ++ (between ++ (d ∷ after)))
            [])
  unfolding match_conditions
  earlier_criterion_lost prefix before between after c d x same given =
      rw
        (
          match_conditions-append prefix before (c ∷ (between ++ (d ∷ after))) [],
          match_conditions-append prefix before (between ++ (d ∷ after)) [],
          match_conditions-append prefix between (d ∷ after) _,
          match_conditions-append prefix between (d ∷ after) _,
        )
        (later-Alike prefix (prefix ++ c.field) d after x _ _ (ap (prefix ++◌) same) given (
          match_conditions-Apart prefix (prefix ++ c.field) between _ _ (
            put_condition-leaves (prefix ++ c.field) (condition c)
              (conditions_from prefix before []))))
