-- ===== src/Sequence/Row.antt =====
-- pkg/sequence/generator.go: what a row of calls of one generator gives.
use go_mongo_sync.Prelude.{
  ℕ, zero, suc, ◌+◌, ◌-◌, ◌≤◌, ◌<◌, ◌≡◌, refl, sym, ap, ◌∙◌, subst, Bool, true, false, Bool-cases,
  inl, inr, Option, none, some, List, [], ◌∷◌, leb, leb→le, if◌then◌else◌, length, All, arith,
}
use go_mongo_sync.Sequence.{
  Store, Reply, answered, refused, unheard, allocate_batch, next_after, next_sequence,
  new_generator, batch_size_of, initialize_counter,
}

-- The calls of one generator, with how the database replies to each; the numbers that they give.
unfoldable pub numbers : List Reply → Store → List ℕ
unfolding next_sequence
numbers [] s = []
numbers (reply ∷ more) s =
    let (number, s') = next_sequence reply s in
    let rest = numbers more s' in elim number [ none ↦ rest | some n ↦ n ∷ rest ]

unfoldable pub after_calls : List Reply → Store → Store
after_calls [] s = s
after_calls (reply ∷ more) s = after_calls more (next_sequence reply s).1

abbrev pub consecutive : ℕ → ℕ → List ℕ
consecutive n zero = []
consecutive n (suc k) = n ∷ consecutive (n + 1) k

-- No call changed the document and then ended with an error.
abbrev pub is_heard : Reply → Bool
is_heard answered = true
is_heard refused = true
is_heard unheard = false

abbrev pub AllHeard : List Reply → Type 0
AllHeard replies = All (λ reply. is_heard reply ≡ true) replies

-- A generator that alone uses its document.
pub record IsAlone (s : Store) : Type 0 where
  pub is_enabled : s.generator.enabled ≡ true
  pub reserved : s.generator.counter ≤ s.generator.max_seq
  pub recorded : s.generator.max_seq ≤ s.sequence
  pub steps : 0 < s.generator.batch_size

-- All that the document counts is known to the generator.
abbrev pub IsTight : Store → Type 0
IsTight s = s.generator.max_seq ≡ s.sequence

-- What one call does: it gives the next number, or a later one to a generator that has given none
-- before; or it fails and leaves the generator as it was.
abbrev Post : Reply → Store → Option ℕ × Store → Type 0
Post reply s (some n, s') =
    (s.generator.counter + 1 ≤ n)
    × (0 < s.generator.counter → n ≡ s.generator.counter + 1)
    × (is_heard reply ≡ true → IsTight s → (n ≡ s.generator.counter + 1) × IsTight s')
    × (s'.generator.counter ≡ n)
    × IsAlone s'
Post reply s (none, s') =
    (s'.generator.counter ≡ s.generator.counter)
    × (is_heard reply ≡ true → IsTight s → IsTight s')
    × IsAlone s'

next_after-Post :
    (reply : Reply) (s : Store)
    → IsAlone s
    → s.generator.max_seq ≤ s.generator.counter
    → Post reply s (next_after (allocate_batch reply s))
unfolding allocate_batch
next_after-Post refused s a h = (refl, (λ heard tight. tight), a)
next_after-Post unheard s a h = (
  refl,
  λ heard tight. absurd cc,
  record {
    is_enabled = a.is_enabled;
    reserved = a.reserved;
    recorded = omega (arith, a.recorded);
    steps = a.steps;
  },
)
next_after-Post answered s a h = (
  ground (arith, a.reserved, a.recorded, a.steps),
  λ given. ground (arith, given),
  λ heard tight. (ground (arith, tight, h, a.reserved), refl),
  refl,
  record {
    is_enabled = a.is_enabled;
    reserved = ground (arith, a.reserved, a.recorded, a.steps);
    recorded = omega arith;
    steps = a.steps;
  },
)

reserved-Post :
    (reply : Reply) (s : Store)
    → IsAlone s
    → s.generator.counter < s.generator.max_seq
    → Post reply s (next_after (true, s))
reserved-Post reply s a h = (
  omega arith,
  λ given. refl,
  λ heard tight. (refl, tight),
  refl,
  record { is_enabled = a.is_enabled; reserved = h'; recorded = a.recorded; steps = a.steps },
)
  where
    h' : s.generator.counter + 1 ≤ s.generator.max_seq
    h' = omega arith

enabled-Post :
    (reply : Reply) (s : Store)
    → IsAlone s
    → Post reply s (
        next_after (
          if leb s.generator.max_seq s.generator.counter
          then allocate_batch reply s
          else (true, s)))
enabled-Post reply s a = elim (Bool-cases (leb s.generator.max_seq s.generator.counter)) [
  | inl e ↦ rw e (next_after-Post reply s a (leb→le _ _ e))
  | inr e ↦ rw e (reserved-Post reply s a (ground (arith, e)))
]

next_sequence-Post : (reply : Reply) (s : Store) → IsAlone s → Post reply s (next_sequence reply s)
unfolding next_sequence
next_sequence-Post reply s a =
    subst
      (λ b. Post reply s (
        if b
        then next_after (
            if leb s.generator.max_seq s.generator.counter
            then allocate_batch reply s
            else (true, s))
        else (some 0, s)))
      (sym a.is_enabled) (enabled-Post reply s a)

-- What a row of calls does: consecutive numbers from behind `first` on, up to the new counter.
pub record Row (replies : List Reply) (s : Store) (ns : List ℕ) (s' : Store) : Type 0 where
  pub first : ℕ
  pub above : s.generator.counter ≤ first
  pub unskipped : 0 < s.generator.counter → first ≡ s.generator.counter
  pub heard : AllHeard replies → IsTight s → first ≡ s.generator.counter
  pub in_order : ns ≡ consecutive (first + 1) (length ns)
  pub last : s'.generator.counter ≡ first + length ns
  pub alone : IsAlone s'

row :
    (reply : Reply) (more : List Reply) (s : Store) (r : Option ℕ × Store)
    → Post reply s r
    → (IsAlone r.1 → Row more r.1 (numbers more r.1) (after_calls more r.1))
    → Row
        (reply ∷ more)
        s
        (elim r.0 [ none ↦ numbers more r.1 | some n ↦ n ∷ numbers more r.1 ])
        (after_calls more r.1)
row reply more s (none, s') (same, tight, alone') next =
    let r = next alone' in
    record {
      first = r.first;
      above = omega (arith, r.above, same);
      unskipped = λ given. r.unskipped (omega (arith, given, same)) ∙ same;
      heard = λ all t. r.heard all.1 (tight all.0 t) ∙ same;
      in_order = r.in_order;
      last = r.last;
      alone = r.alone;
    }
row reply more s (some n, s') (later, follows, tight, counted, alone') next =
    let r = next alone' in
    let start = r.unskipped (omega (arith, later, counted)) ∙ counted in
    record {
      first = n - 1;
      above = omega (arith, later);
      unskipped = λ given. omega (arith, follows given);
      heard = λ all t. omega (arith, (tight all.0 t).0);
      in_order =
          ap (n ∷◌) (r.in_order ∙ ap (λ k. consecutive (k + 1) (length (numbers more s'))) start)
          ∙ ap (λ k. consecutive k (suc (length (numbers more s')))) (omega (arith, later));
      last = omega (arith, r.last, start, later);
      alone = r.alone;
    }

pub numbers-Row :
    (replies : List Reply) (s : Store)
    → IsAlone s
    → Row replies s (numbers replies s) (after_calls replies s)
unfolding numbers after_calls
numbers-Row [] s a = record {
  first = s.generator.counter;
  above = omega arith;
  unskipped = λ given. refl;
  heard = λ all t. refl;
  in_order = refl;
  last = omega arith;
  alone = a;
}
numbers-Row (reply ∷ more) s a =
    row reply more s (next_sequence reply s) (next_sequence-Post reply s a)
      (numbers-Row more (next_sequence reply s).1)

pub new_generator-IsAlone :
    (batch_size : ℕ) (document : Option ℕ)
    → IsAlone (new_generator batch_size document) × IsTight (new_generator batch_size document)
unfolding new_generator initialize_counter batch_size_of
new_generator-IsAlone batch_size none = (
  record {
    is_enabled = refl;
    reserved = ground arith;
    recorded = ground arith;
    steps = ground arith;
  },
  refl,
)
new_generator-IsAlone batch_size (some n) = (
  record {
    is_enabled = refl;
    reserved = ground arith;
    recorded = ground arith;
    steps = ground arith;
  },
  refl,
)

pub counter_le_next :
    (later : ℕ) (s : Store)
    → IsAlone s
    → s.generator.counter ≤ (new_generator later (some s.sequence)).generator.counter
unfolding new_generator initialize_counter
counter_le_next later s a = omega (arith, a.reserved, a.recorded)
