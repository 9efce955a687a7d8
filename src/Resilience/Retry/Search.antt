-- ===== src/Resilience/Retry/Search.antt =====
-- pkg/resilience/retry_manager.go: what `contains` finds.
use go_mongo_sync.Prelude.{
  ℕ, zero, suc, ◌+◌, ◌-◌, ◌==◌, ==_iff, ◌≤◌, ◌<◌, ◌≡◌, refl, sym, ap, ◌∙◌, ◌↔◌, ◌⊎◌, inl, inr, Bool,
  true, false, Bool-cases, [], ◌∷◌, ◌++◌, ◌&&◌, ◌||◌, ltb, leb, length, drop, take, arith,
  length-append, ltb→le, le→leb, take-append, drop-append, take-append-drop, append-nil,
}
use mathlib.Core.Bool.{false≢true}
use go_mongo_sync.Prelude.Bytes.{Bytes, bytes_eq, bytes_eq_refl, bytes_eq→eq, slice}
use go_mongo_sync.Resilience.Retry.{search_from, find_substring, contains}

-- `substr` stands somewhere in `s`.
pub record Occurs (substr s : Bytes) : Type 0 where
  pub before : Bytes
  pub after : Bytes
  pub joined : s ≡ before ++ (substr ++ after)

slice-Occurs :
    (i : ℕ) (s substr : Bytes)
    → bytes_eq (slice i (i + length substr) s) substr ≡ true
    → Occurs substr s
slice-Occurs i s substr h = record {
  before = take i s;
  after = drop (i + length substr - i) (drop i s);
  joined =
      sym (take-append-drop i s)
      ∙ ap (λ r. take i s ++ r)
          (sym (take-append-drop (i + length substr - i) (drop i s))
            ∙ ap (λ r. r ++ drop (i + length substr - i) (drop i s)) (bytes_eq→eq _ substr h));
}

search_from-Occurs :
    (k i : ℕ) (s substr : Bytes) → search_from k i s substr ≡ true → Occurs substr s
unfolding search_from
search_from-Occurs zero i s substr h = absurd (cc h)
search_from-Occurs (suc k) i s substr h =
    elim (Bool-cases (bytes_eq (slice i (i + length substr) s) substr)) [
      | inl e ↦ slice-Occurs i s substr e
      | inr e ↦ search_from-Occurs k (i + 1) s substr (rw (search_from, e) at h)
    ]

slice-joined :
    (i : ℕ) (before substr after : Bytes)
    → i ≡ length before
    → slice i (i + length substr) (before ++ (substr ++ after)) ≡ substr
slice-joined i before substr after h =
    rw (drop-append i before (substr ++ after) h)
      (take-append (i + length substr - i) substr after (omega arith))

-- Where the string stands behind `before`, the search cannot miss it there.
not_here :
    (i : ℕ) (before substr after : Bytes)
    → i ≤ length before
    → bytes_eq (slice i (i + length substr) (before ++ (substr ++ after))) substr ≡ false
    → i + 1 ≤ length before
not_here i before substr after le e = elim (Bool-cases (i == length before)) [
  | inl h ↦
      let here = slice-joined i before substr after ((==_iff i (length before)).0 h) in
      absurd (false≢true (sym e ∙ (ap (λ x. bytes_eq x substr) here ∙ bytes_eq_refl substr)))
  | inr h ↦ ground (arith, h)
]

search_from-joined :
    (k i : ℕ) (before substr after : Bytes)
    → i ≤ length before
    → length before < i + k
    → search_from k i (before ++ (substr ++ after)) substr ≡ true
unfolding search_from
search_from-joined zero i before substr after le lt = absurd (omega arith)
search_from-joined (suc k) i before substr after le lt =
    elim (Bool-cases
      (bytes_eq (slice i (i + length substr) (before ++ (substr ++ after))) substr)) [
        | inl e ↦ rw e refl
        | inr e ↦ rw e (
            search_from-joined k (i + 1) before substr after (not_here i before substr after le e)
              (omega arith))
      ]

or-true : (a b : Bool) → (a || b) ≡ true → (a ≡ true) ⊎ (b ≡ true)
or-true true b h = inl refl
or-true false b h = inr h

and-true : (a b : Bool) → (a && b) ≡ true → b ≡ true
and-true true b h = h
and-true false b h = absurd (false≢true h)

or_right : (a b : Bool) → b ≡ true → (a || b) ≡ true
or_right true b h = refl
or_right false b h = h

suffix-Occurs : (n : ℕ) (s substr : Bytes) → bytes_eq (drop n s) substr ≡ true → Occurs substr s
suffix-Occurs n s substr h = record {
  before = take n s;
  after = [];
  joined =
      sym (take-append-drop n s)
      ∙ ap (λ r. take n s ++ r) (bytes_eq→eq _ substr h ∙ sym (append-nil substr));
}

prefix-Occurs :
    (s substr : Bytes) → bytes_eq (slice 0 (length substr) s) substr ≡ true → Occurs substr s
prefix-Occurs s substr h =
    let same : 0 + length substr ≡ length substr = omega arith in
    slice-Occurs 0 s substr (rw same h)

whole-Occurs : (s substr : Bytes) → bytes_eq s substr ≡ true → Occurs substr s
whole-Occurs s substr h = suffix-Occurs 0 s substr h

-- The alternatives of `contains`, one of which holds.
contains-true : (s substr : Bytes) → contains s substr ≡ true → Occurs substr s
unfolding contains find_substring
contains-true s substr h =
    let prefix = bytes_eq (slice 0 (length substr) s) substr in
    let suffix = bytes_eq (drop (length s - length substr) s) substr in
    let found = search_from (length s + 1 - length substr) 0 s substr in
    let longer = ltb (length substr) (length s) in
    let inner : (longer && (prefix || (suffix || found))) ≡ true → Occurs substr s = λ r.
      elim (or-true prefix (suffix || found) (and-true longer (prefix || (suffix || found)) r)) [
        | inl e ↦ prefix-Occurs s substr e
        | inr r' ↦ elim (or-true suffix found r') [
          | inl e ↦ suffix-Occurs (length s - length substr) s substr e
          | inr e ↦ search_from-Occurs (length s + 1 - length substr) 0 s substr e
        ]
      ] in
    elim (or-true (bytes_eq s substr) (longer && (prefix || (suffix || found)))
      (and-true (leb (length substr) (length s)) _ h)) [
        | inl e ↦ whole-Occurs s substr e
        | inr r ↦ inner r
      ]

length_joined :
    (before substr after : Bytes)
    → length (before ++ (substr ++ after)) ≡ length before + (length substr + length after)
length_joined before substr after =
    length-append before (substr ++ after)
    ∙ ap (λ n. length before + n) (length-append substr after)

empty_of_length : (xs : Bytes) → length xs ≡ 0 → xs ≡ []
empty_of_length [] h = refl
empty_of_length (x ∷ xs) h = absurd (omega arith)

-- A string with nothing round it equals the one that is looked for.
whole_joined :
    (before substr after : Bytes)
    → length before ≡ 0
    → length after ≡ 0
    → bytes_eq (before ++ (substr ++ after)) substr ≡ true
whole_joined before substr after b a =
    rw (empty_of_length before b, empty_of_length after a, append-nil substr) (bytes_eq_refl substr)

contains_joined :
    (before substr after : Bytes) → contains (before ++ (substr ++ after)) substr ≡ true
unfolding contains find_substring
contains_joined before substr after =
    let s = before ++ (substr ++ after) in
    let n = length_joined before substr after in
    rw (le→leb (length substr) (length s) (omega (arith, n)))
      (elim (Bool-cases (ltb (length substr) (length s))) [
        | inl longer ↦
            rw
              (
                longer,
                search_from-joined (length s + 1 - length substr) 0 before substr after
                    (omega arith) (omega (arith, n)),
              )
              (or_right (bytes_eq s substr) _ (or_right _ _ (or_right _ true refl)))
        | inr same ↦
            let whole =
              whole_joined before substr after (omega (arith, n, ltb→le _ _ same))
                (omega (arith, n, ltb→le _ _ same)) in
            rw whole refl
      ])

-- `contains` answers whether the string occurs anywhere in the other, letter by letter.
contains_iff : (s substr : Bytes) → (contains s substr ≡ true) ↔ Occurs substr s
contains_iff s substr =
    (contains-true s substr, λ o. rw o.joined (contains_joined o.before substr o.after))
