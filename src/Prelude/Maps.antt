-- ===== src/Prelude/Maps.antt =====
-- Go's maps from strings: lists of keys and values in which a key stands once. A `range` over a map
-- takes any order of its list.
use mathlib.Core.Path.{◌≡◌, refl, sym, ap, ◌∙◌}
use mathlib.Core.Logic.{inl, inr}
use mathlib.Core.Bool.{Bool, true, false, ◌||◌, false≢true}
use mathlib.Core.Option.{Option, none, some}
use mathlib.Core.List.{List, [], ◌∷◌}
use go_mongo_sync.Prelude.Tests.{if◌then◌else◌, Bool-cases}
use go_mongo_sync.Prelude.Bytes.{Bytes, bytes_eq, bytes_eq_refl, bytes_eq→eq}

if_absorbs {ℓ} :
    {A : Type ℓ} (b : Bool) (x y z : A)
    → (if b then x else z) ≡ (if b then x else if b then y else z)
if_absorbs true x y z = refl
if_absorbs false x y z = refl

if_swaps {ℓ} :
    {A : Type ℓ} (b c : Bool) (x y z : A)
    → ((b ≡ true) → (c ≡ true) → false ≡ true)
    → (if c then y else if b then x else z) ≡ (if b then x else if c then y else z)
if_swaps true true x y z apart = absurd (false≢true (apart refl refl))
if_swaps true false x y z apart = refl
if_swaps false c x y z apart = refl

pub if_both {ℓ} : {A : Type ℓ} (b : Bool) (x : A) → x ≡ (if b then x else x)
if_both true x = refl
if_both false x = refl

if_or {ℓ} :
    {A : Type ℓ} (a b : Bool) (x y : A)
    → (if b then x else if a then x else y) ≡ (if a || b then x else y)
if_or true true x y = refl
if_or true false x y = refl
if_or false true x y = refl
if_or false false x y = refl

abbrev pub is_in : Bytes → List Bytes → Bool
is_in id [] = false
is_in id (x ∷ xs) = bytes_eq id x || is_in id xs

pub bytes_eq-other : (a b : Bytes) → bytes_eq a b ≡ false → bytes_eq b a ≡ false
bytes_eq-other a b e = elim (Bool-cases (bytes_eq b a)) [
  | inl h ↦
      absurd (false≢true (sym e ∙ (ap (λ x. bytes_eq a x) (bytes_eq→eq b a h) ∙ bytes_eq_refl a)))
  | inr h ↦ h
]

bytes_eq-two :
    (key k k' : Bytes)
    → bytes_eq k k' ≡ false
    → bytes_eq key k ≡ true
    → bytes_eq key k' ≡ true
    → false ≡ true
bytes_eq-two key k k' e h h' = sym e ∙ ap (λ x. bytes_eq x k') (sym (bytes_eq→eq key k h)) ∙ h'

module _ {ℓ} {V : Type ℓ} where
  -- `m[key]`, where the key may be missing.
  unfoldable pub lookup : Bytes → List (Bytes × V) → Option V
  lookup key [] = none
  lookup key ((k, v) ∷ m) = if bytes_eq key k then some v else lookup key m

  -- `m[key] = value`.
  unfoldable pub assign : Bytes → V → List (Bytes × V) → List (Bytes × V)
  assign key value [] = (key, value) ∷ []
  assign key value ((k, v) ∷ m) =
      if bytes_eq key k then (k, value) ∷ m else (k, v) ∷ assign key value m

  -- `delete(m, key)`.
  unfoldable pub remove : Bytes → List (Bytes × V) → List (Bytes × V)
  remove key [] = []
  remove key ((k, v) ∷ m) = if bytes_eq key k then remove key m else (k, v) ∷ remove key m

  unfoldable pub remove_all : List Bytes → List (Bytes × V) → List (Bytes × V)
  remove_all [] m = m
  remove_all (k ∷ ks) m = remove_all ks (remove k m)

  -- Each key and value of a list assigned in turn.
  unfoldable pub assign_all : List (Bytes × V) → List (Bytes × V) → List (Bytes × V)
  assign_all [] m = m
  assign_all ((k, v) ∷ entries) m = assign_all entries (assign k v m)

  abbrev pub or_else : Option V → Option V → Option V
  or_else none o = o
  or_else (some v) o = some v

  -- A key stands once, as in a Go map.
  unfoldable pub IsMap : List (Bytes × V) → Type ℓ
  IsMap [] = Unit
  IsMap ((k, v) ∷ m) = (lookup k m ≡ none) × IsMap m

  pub lookup-assign :
      (key k : Bytes) (v : V) (m : List (Bytes × V))
      → lookup key (assign k v m) ≡ (if bytes_eq key k then some v else lookup key m)
  unfolding lookup assign
  lookup-assign key k v [] = refl
  lookup-assign key k v ((k', w) ∷ m) = elim (Bool-cases (bytes_eq k k')) [
    | inl e ↦
        rw (e, sym (bytes_eq→eq k k' e))
          (if_absorbs (bytes_eq key k) (some v) (some w) (lookup key m))
    | inr e ↦
        rw (e, lookup-assign key k v m)
          (if_swaps (bytes_eq key k) (bytes_eq key k') (some v) (some w) (lookup key m)
            (bytes_eq-two key k k' e))
  ]

  pub lookup-assign_self :
      (k : Bytes) (v : V) (m : List (Bytes × V)) → lookup k (assign k v m) ≡ some v
  lookup-assign_self k v m = lookup-assign k k v m ∙ rw (bytes_eq_refl k) refl

  pub lookup-remove :
      (key k : Bytes) (m : List (Bytes × V))
      → lookup key (remove k m) ≡ (if bytes_eq key k then none else lookup key m)
  unfolding lookup remove
  lookup-remove key k [] = if_both (bytes_eq key k) none
  lookup-remove key k ((k', w) ∷ m) = elim (Bool-cases (bytes_eq k k')) [
    | inl e ↦
        rw (e, lookup-remove key k m, sym (bytes_eq→eq k k' e))
          (if_absorbs (bytes_eq key k) none (some w) (lookup key m))
    | inr e ↦
        rw (e, lookup-remove key k m)
          (if_swaps (bytes_eq key k) (bytes_eq key k') none (some w) (lookup key m)
            (bytes_eq-two key k k' e))
  ]

  pub lookup-remove_all :
      (key : Bytes) (ks : List Bytes) (m : List (Bytes × V))
      → lookup key (remove_all ks m) ≡ (if is_in key ks then none else lookup key m)
  unfolding remove_all
  lookup-remove_all key [] m = refl
  lookup-remove_all key (k ∷ ks) m =
      lookup-remove_all key ks (remove k m)
      ∙ rw (lookup-remove key k m) (if_or (bytes_eq key k) (is_in key ks) none (lookup key m))

  assign_new-IsMap :
      (key k : Bytes) (v : V) (m : List (Bytes × V))
      → bytes_eq key k ≡ false
      → lookup key m ≡ none
      → lookup key (assign k v m) ≡ none
  assign_new-IsMap key k v m e h = lookup-assign key k v m ∙ rw e h

  pub or_else-none : (o : Option V) → or_else o none ≡ o
  or_else-none none = refl
  or_else-none (some v) = refl

  pub assign-IsMap : (k : Bytes) (v : V) (m : List (Bytes × V)) → IsMap m → IsMap (assign k v m)
  unfolding IsMap assign lookup
  assign-IsMap k v [] h = (refl, tt)
  assign-IsMap k v ((k', w) ∷ m) h = elim (Bool-cases (bytes_eq k k')) [
    | inl e ↦ rw e h
    | inr e ↦ rw e (assign_new-IsMap k' k v m (bytes_eq-other k k' e) h.0, assign-IsMap k v m h.1)
  ]

  pub assign_all-IsMap : (entries m : List (Bytes × V)) → IsMap m → IsMap (assign_all entries m)
  unfolding assign_all
  assign_all-IsMap [] m h = h
  assign_all-IsMap ((k, v) ∷ entries) m h =
      assign_all-IsMap entries (assign k v m) (assign-IsMap k v m h)

  pub lookup-assign_all :
      (key : Bytes) (entries m : List (Bytes × V))
      → IsMap entries
      → lookup key (assign_all entries m) ≡ or_else (lookup key entries) (lookup key m)
  unfolding assign_all IsMap lookup
  lookup-assign_all key [] m h = refl
  lookup-assign_all key ((k, v) ∷ entries) m h =
      lookup-assign_all key entries (assign k v m) h.1 ∙ elim (Bool-cases (bytes_eq key k)) [
        | inl e ↦
            rw (lookup-assign key k v m, e, ap (λ x. lookup x entries) (bytes_eq→eq key k e) ∙ h.0)
              refl
        | inr e ↦ rw (lookup-assign key k v m, e) refl
      ]
