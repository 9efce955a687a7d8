-- ===== src/Filtering/Kept.antt =====
-- pkg/filtering/filter.go: the fields that `ApplyFieldFilter` keeps.
use go_mongo_sync.Prelude.{
  ◌≡◌, refl, sym, ap, ◌∙◌, Bool, true, false, not, Bool-cases, Option-cases, inl, inr, Option, none,
  some, List, [], ◌∷◌, ◌||◌, if◌then◌else◌,
}
use mathlib.Core.Bool.{false≢true, or-false, or_assoc}
use go_mongo_sync.Prelude.Bytes.{Bytes, bytes_eq, bytes_eq_refl, bytes_eq→eq}
use go_mongo_sync.Prelude.Maps.{or_else, if_both, lookup, assign, IsMap, lookup-assign}
use go_mongo_sync.Filtering.{
  FieldFilter, id_field, is_empty, is_listed, copy_field, copy_fields, copy_included, copy_others,
  apply_field_filter,
}

-- What a filter promises to keep: the id, the fields always included, and of the others the
-- included ones, or all but the excluded ones where none are named.
abbrev pub kept : FieldFilter → Bytes → Bool
kept f key =
    (bytes_eq key id_field || is_listed key f.always_include)
    || (if is_empty f.include_fields
        then not (is_listed key f.exclude_fields)
        else is_listed key f.include_fields)

if_widens {ℓ} :
    {A : Type ℓ} (p q : Bool) (x z : A)
    → ((q ≡ true) → x ≡ z)
    → (if p then x else z) ≡ (if p || q then x else z)
if_widens true q x z h = refl
if_widens false true x z h = sym (h refl)
if_widens false false x z h = refl

if_joins {ℓ} :
    {A : Type ℓ} (p q : Bool) (w x z : A)
    → ((q ≡ true) → w ≡ x)
    → (if q then w else if p then x else z) ≡ (if p || q then x else z)
if_joins true true w x z h = h refl
if_joins true false w x z h = refl
if_joins false true w x z h = h refl
if_joins false false w x z h = refl

or_absorbs : (p a b : Bool) → ((a ≡ true) → p ≡ true) → (p || (a || b)) ≡ (p || b)
or_absorbs true a b h = refl
or_absorbs false true b h = absurd (false≢true (h refl))
or_absorbs false false b h = refl

module _ {ℓ} {V : Type ℓ} where
  -- What a map holds at a key: what the document has there, if it was copied.
  abbrev Copied : Bytes → List (Bytes × V) → Bool → List (Bytes × V) → Type ℓ
  Copied key doc p filtered = lookup key filtered ≡ (if p then lookup key doc else none)

  nothing-Copied : (key : Bytes) (doc : List (Bytes × V)) → Copied key doc false []
  unfolding lookup
  nothing-Copied key doc = refl

  copy_field-Copied :
      (key field : Bytes) (doc filtered : List (Bytes × V)) (p : Bool)
      → Copied key doc p filtered
      → Copied key doc (p || bytes_eq key field) (copy_field field doc filtered)
  unfolding copy_field
  copy_field-Copied key field doc filtered p h = elim (Option-cases (lookup field doc)) [
    | inl e ↦
        rw (e, h)
          (if_widens p (bytes_eq key field) (lookup key doc) none
            λ q. ap (λ x. lookup x doc) (bytes_eq→eq key field q) ∙ e)
    | inr (v, e) ↦
        rw (e, lookup-assign key field v filtered, h)
          (if_joins p (bytes_eq key field) (some v) (lookup key doc) none
            λ q. sym (ap (λ x. lookup x doc) (bytes_eq→eq key field q) ∙ e))
  ]

  copy_fields-Copied :
      (key : Bytes) (fs : List Bytes) (doc filtered : List (Bytes × V)) (p : Bool)
      → Copied key doc p filtered
      → Copied key doc (p || is_listed key fs) (copy_fields fs doc filtered)
  unfolding copy_fields is_listed
  copy_fields-Copied key [] doc filtered p h = rw (or-false p) h
  copy_fields-Copied key (f ∷ fs) doc filtered p h =
      rw (sym (or_assoc p (bytes_eq key f) (is_listed key fs))) (
        copy_fields-Copied key fs doc (copy_field f doc filtered) (p || bytes_eq key f)
          (copy_field-Copied key f doc filtered p h))

  copy_included-Copied :
      (key : Bytes) (fs : List Bytes) (doc filtered : List (Bytes × V)) (p : Bool)
      → ((bytes_eq key id_field ≡ true) → p ≡ true)
      → Copied key doc p filtered
      → Copied key doc (p || is_listed key fs) (copy_included fs doc filtered)
  unfolding copy_included is_listed
  copy_included-Copied key [] doc filtered p id h = rw (or-false p) h
  copy_included-Copied key (f ∷ fs) doc filtered p id h = elim (Bool-cases (bytes_eq f id_field)) [
    | inl e ↦
        rw
          (
            e,
            or_absorbs p (bytes_eq key f) (is_listed key fs)
                λ q. id (ap (λ x. bytes_eq x id_field) (bytes_eq→eq key f q) ∙ e),
          )
          (copy_included-Copied key fs doc filtered p id h)
    | inr e ↦
        rw (e, sym (or_assoc p (bytes_eq key f) (is_listed key fs)))
          (copy_included-Copied key fs doc (copy_field f doc filtered) (p || bytes_eq key f)
            (λ q. rw (id q) refl) (copy_field-Copied key f doc filtered p h))
  ]

  -- A step of the loop, at the field itself and at any other.
  lookup-step_same :
      (key : Bytes) (v : V) (listed : Bool) (filtered : List (Bytes × V))
      → (if listed
          then lookup key (if listed then filtered else assign key v filtered)
          else or_else none (lookup key (if listed then filtered else assign key v filtered)))
        ≡ (if listed then lookup key filtered else some v)
  lookup-step_same key v true filtered = refl
  lookup-step_same key v false filtered =
      lookup-assign key key v filtered ∙ rw (bytes_eq_refl key) refl

  lookup-step_other :
      (key k : Bytes) (v : V) (listed : Bool) (filtered : List (Bytes × V))
      → bytes_eq key k ≡ false
      → lookup key (if listed then filtered else assign k v filtered) ≡ lookup key filtered
  lookup-step_other key k v true filtered e = refl
  lookup-step_other key k v false filtered e = lookup-assign key k v filtered ∙ rw e refl

  lookup-copy_others :
      (key : Bytes) (excluded : List Bytes) (doc filtered : List (Bytes × V))
      → IsMap doc
      → lookup key (copy_others excluded doc filtered) ≡ (
          if is_listed key excluded
          then lookup key filtered
          else or_else (lookup key doc) (lookup key filtered))
  unfolding copy_others lookup IsMap
  lookup-copy_others key excluded [] filtered m =
      if_both (is_listed key excluded) (lookup key filtered)
  lookup-copy_others key excluded ((k, v) ∷ doc) filtered (new, m) =
      lookup-copy_others key excluded doc
        (if is_listed k excluded then filtered else assign k v filtered) m
      ∙ elim (Bool-cases (bytes_eq key k)) [
        | inl e ↦
            rw (e, ap (λ x. lookup x doc) (bytes_eq→eq key k e) ∙ new, sym (bytes_eq→eq key k e))
              (lookup-step_same key v (is_listed key excluded) filtered)
        | inr e ↦ rw (e, lookup-step_other key k v (is_listed k excluded) filtered e) refl
      ]

  others_kept :
      (p listed : Bool) (value : Option V)
      → (if listed then (if p then value else none) else or_else value (if p then value else none))
        ≡ (if p || not listed then value else none)
  others_kept true true value = refl
  others_kept true false none = refl
  others_kept true false (some v) = refl
  others_kept false true value = refl
  others_kept false false none = refl
  others_kept false false (some v) = refl

  -- Filtering a document keeps a field exactly where the filter promises it, with the value that the
  -- document has there. It adds no field, and neither the order of the document's fields nor that
  -- of the lists matters.
  pub lookup-apply_field_filter :
      (f : FieldFilter) (doc : List (Bytes × V)) (key : Bytes)
      → IsMap doc
      → lookup key (apply_field_filter (some f) doc) ≡ (if kept f key then lookup key doc else none)
  unfolding apply_field_filter
  lookup-apply_field_filter f doc key m = elim (Bool-cases (is_empty f.include_fields)) [
    | inl e ↦
        rw (e, lookup-copy_others key f.exclude_fields doc filtered m, always)
          (others_kept (bytes_eq key id_field || is_listed key f.always_include)
            (is_listed key f.exclude_fields) (lookup key doc))
    | inr e ↦ rw e (
        copy_included-Copied key f.include_fields doc filtered
          (bytes_eq key id_field || is_listed key f.always_include) (λ q. rw q refl) always)
  ]
    where
      filtered : List (Bytes × V)
      filtered = copy_fields f.always_include doc (copy_field id_field doc [])

      always : Copied key doc (bytes_eq key id_field || is_listed key f.always_include) filtered
      always =
          copy_fields-Copied key f.always_include doc (copy_field id_field doc [])
            (bytes_eq key id_field)
            (copy_field-Copied key id_field doc [] false (nothing-Copied key doc))
