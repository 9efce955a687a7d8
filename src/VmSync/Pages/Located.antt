-- ===== src/VmSync/Pages/Located.antt =====
-- cmd/vm-sync/main.go: each document of a collection stands on one of its pages.
use go_mongo_sync.Prelude.{
  ℕ, zero, suc, ◌+◌, ◌-◌, ◌*◌, ◌≤◌, ◌<◌, ◌≡◌, refl, sym, ap, ◌∙◌, subst, Option-cases, inl, inr,
  ◌⊎◌, Option, none, some, List, [], ◌∷◌, ◌++◌, length, length-drop, take, drop, take-append-drop,
  arith,
}
use native.Mathlib.Nat.{le-div_iff_mul-le}
use go_mongo_sync.Prelude.Bytes.{Bytes}
use go_mongo_sync.Prelude.Maps.{lookup, or_else, IsMap}
use go_mongo_sync.VmSync.Pages.{total_pages, upserts}
use go_mongo_sync.VmSync.Pages.Upserts.{
  Upserts, upserts-append, lookup-append, IsMap-left, IsMap-right, IsMap-apart,
}

-- The page that the other side answers.
abbrev pub page {ℓ} : {A : Type ℓ} → ℕ → List A → ℕ → List A
page page_size docs k = take page_size (drop (k * page_size) docs)

drop-nil {ℓ} : {A : Type ℓ} (n : ℕ) → drop {A = A} n [] ≡ []
drop-nil zero = refl
drop-nil (suc n) = refl

drop-drop {ℓ} : {A : Type ℓ} (m n : ℕ) (xs : List A) → drop m (drop n xs) ≡ drop (n + m) xs
drop-drop m zero xs = ap (λ k. drop k xs) (omega arith)
drop-drop m (suc n) [] = drop-nil m ∙ sym (drop-nil (suc n + m))
drop-drop m (suc n) (x ∷ xs) = drop-drop m n xs ∙ ap (λ k. drop k (x ∷ xs)) (suc_plus n m)
  where
    suc_plus : (n m : ℕ) → suc (n + m) ≡ suc n + m
    suc_plus n m = omega arith

pub before_end :
    (count page_size k : ℕ)
    → 0 < page_size
    → k * page_size < count
    → k < total_pages count page_size
unfolding total_pages
before_end count page_size k s h =
    omega (arith, (le-div_iff_mul-le {x = k + 1} {y = count + page_size - 1} s).1 (omega arith))

-- What is known of a key from a part of a map: nothing, or all.
abbrev pub Within {ℓ} : {V : Type ℓ} → Option V → Option V → Type ℓ
Within o x = (x ≡ none) ⊎ (x ≡ o)

module _ {ℓ} {V : Type ℓ} where
  some≢none : (v : V) → ¬ (Path (Option V) (some v) none)
  some≢none v h = cc

  middle-Within :
      (id : Bytes) (xs ys zs : List (Bytes × V))
      → IsMap (xs ++ (ys ++ zs))
      → Within (lookup id (xs ++ (ys ++ zs))) (lookup id ys)
  middle-Within id xs ys zs h = elim (Option-cases (lookup id ys)) [
    | inl e ↦ inl e
    | inr (v, e) ↦ inr (
        e
        ∙ sym (elim (IsMap-apart id xs (ys ++ zs) h) [
          | inl left ↦
              lookup-append id xs (ys ++ zs)
              ∙ (ap (λ o. or_else o (lookup id (ys ++ zs))) left ∙ at v e)
          | inr right ↦ absurd (some≢none v (sym (at v e) ∙ right))
        ]))
  ]
    where
      at : (v : V) → lookup id ys ≡ some v → lookup id (ys ++ zs) ≡ some v
      at v e = lookup-append id ys zs ∙ ap (λ o. or_else o (lookup id zs)) e

  pub or_else-Within : (o l x : Option V) → Within o l → Within o x → Within o (or_else l x)
  or_else-Within o none x h h' = h'
  or_else-Within o (some v) x h h' = h

  pub or_else-held : (o l x : Option V) → Within o l → x ≡ o → or_else l x ≡ o
  or_else-held o none x h e = e
  or_else-held o (some v) x (inl h) e = absurd cc
  or_else-held o (some v) x (inr h) e = h

  pub or_else-found : (o l x : Option V) → l ≡ o → Within o x → or_else l x ≡ o
  or_else-found o none x e (inl h) = h ∙ e
  or_else-found o none x e (inr h) = h
  or_else-found o (some v) x e h = e

module _ {ℓ κ} {D : Type ℓ} {C : Type κ} (unmarshal : Bytes → Option D) (id_of : D → Option Bytes)
    (bulk_write : List (Bytes × D) → C → Option C) (find : Bytes → C → Option D)
    (writes : Upserts find bulk_write) (docs : List Bytes)
    (distinct : IsMap (upserts unmarshal id_of bulk_write docs)) (page_size : ℕ)
    (positive : 0 < page_size) where
  abbrev pub ups : List Bytes → List (Bytes × D)
  ups xs = upserts unmarshal id_of bulk_write xs

  ups-split :
      (id : Bytes) (n : ℕ) (xs : List Bytes)
      → lookup id (ups xs) ≡ or_else (lookup id (ups (take n xs))) (lookup id (ups (drop n xs)))
  ups-split id n xs =
      ap (λ ys. lookup id (ups ys)) (sym (take-append-drop n xs))
      ∙ (ap (lookup id)
            (upserts-append unmarshal id_of bulk_write find writes (take n xs) (drop n xs))
          ∙ lookup-append id (ups (take n xs)) (ups (drop n xs)))

  -- A document of a list stands on one of its pages.
  abbrev pub Located : Bytes → D → List Bytes → Type ℓ
  Located id d xs =
      (k : ℕ) × (k * page_size < length xs) × (lookup id (ups (page page_size xs k)) ≡ some d)

  Located-first :
      (id : Bytes) (d : D) (x : Bytes) (xs : List Bytes)
      → lookup id (ups (take page_size (x ∷ xs))) ≡ some d
      → Located id d (x ∷ xs)
  Located-first id d x xs e =
      (0, omega arith, ap (λ n. lookup id (ups (take page_size (drop n (x ∷ xs))))) no_pages ∙ e)
    where
      no_pages : 0 * page_size ≡ 0
      no_pages = omega arith

  Located-later :
      (id : Bytes) (d : D) (xs : List Bytes) → Located id d (drop page_size xs) → Located id d xs
  Located-later id d xs (k, h, e) = (
    k + 1,
    omega (arith, length-drop page_size xs),
    ap (λ ys. lookup id (ups (take page_size ys)))
          (ap (λ n. drop n xs) next ∙ sym (drop-drop (k * page_size) page_size xs))
        ∙ e,
  )
    where
      next : (k + 1) * page_size ≡ page_size + k * page_size
      next = omega arith

  pub located :
      (fuel : ℕ) (id : Bytes) (d : D) (xs : List Bytes)
      → length xs ≤ fuel
      → lookup id (ups xs) ≡ some d
      → Located id d xs
  unfolding upserts lookup
  located fuel id d [] h e = absurd (some≢none d (sym e))
  located zero id d (x ∷ xs) h e = absurd (omega arith)
  located (suc fuel) id d (x ∷ xs) h e =
      elim (Option-cases (lookup id (ups (take page_size (x ∷ xs))))) [
        | inl missing ↦ Located-later id d (x ∷ xs) (
            located fuel id d (drop page_size (x ∷ xs))
              (omega (arith, length-drop page_size (x ∷ xs)))
              (sym (
                  ups-split id page_size (x ∷ xs)
                  ∙ ap (λ o. or_else o (lookup id (ups (drop page_size (x ∷ xs))))) missing)
                ∙ e))
        | inr (d', found) ↦ Located-first id d x xs (
            found
            ∙ (sym (
                  ups-split id page_size (x ∷ xs)
                  ∙ ap (λ o. or_else o (lookup id (ups (drop page_size (x ∷ xs))))) found)
                ∙ e))
      ]

  abbrev before : ℕ → List Bytes
  before k = take (k * page_size) docs

  abbrev after : ℕ → List Bytes
  after k = drop page_size (drop (k * page_size) docs)

  pages_split :
      (k : ℕ) → ups docs ≡ ups (before k) ++ (ups (page page_size docs k) ++ ups (after k))
  pages_split k =
      ap ups (sym (take-append-drop (k * page_size) docs))
      ∙ (upserts-append unmarshal id_of bulk_write find writes (before k)
            (drop (k * page_size) docs)
          ∙ ap (λ ops. ups (before k) ++ ops)
              (ap ups (sym (take-append-drop page_size (drop (k * page_size) docs)))
                ∙ upserts-append unmarshal id_of bulk_write find writes (page page_size docs k)
                    (after k)))

  pub page-IsMap : (k : ℕ) → IsMap (ups (page page_size docs k))
  page-IsMap k = IsMap-left (ups (page page_size docs k)) (ups (after k)) (
      IsMap-right (ups (before k)) (ups (page page_size docs k) ++ ups (after k))
        (subst (λ ops. IsMap ops) (pages_split k) distinct))

  pub page-Within :
      (k : ℕ) (id : Bytes) → Within (lookup id (ups docs)) (lookup id (ups (page page_size docs k)))
  page-Within k id =
      subst (λ ops. Within (lookup id ops) (lookup id (ups (page page_size docs k))))
        (sym (pages_split k))
        (middle-Within id (ups (before k)) (ups (page page_size docs k)) (ups (after k))
          (subst (λ ops. IsMap ops) (pages_split k) distinct))
