-- ===== src/Memory/Buffer/Kept.antt =====
-- pkg/memory/buffer.go: which events reach the callback or stay in the buffer.
use go_mongo_sync.Prelude.{
  ℕ, zero, suc, ◌+◌, ◌<◌, ◌≤◌, ◌≡◌, refl, sym, ap, ◌∙◌, subst, Bool, true, false, ◌&&◌, Option,
  none, some, List, [], ◌∷◌, ◌++◌, flatten, length, leb, ltb, if◌then◌else◌, append-nil,
  append_assoc, arith,
}
use mathlib.Core.List.{Perm, perm_append_comm}
use mathlib.Core.List.Perm
use go_mongo_sync.Prelude.Steps.{bind}
use go_mongo_sync.Memory.Buffer.{
  BufferedEvent, MemoryBuffer, set_flush_callback, make_buffer_room, append_event, triggers,
  add_to_buffer, clear_buffer, flush_buffer, trigger_flush, BufferCall, adds, flushes, triggered,
  clears, sets_callback, runs, Callbacks, Handed, buffer_call, buffer_calls, add_sized, added,
  handed_now, handed_later, taken_out, run_one,
}

-- Lists of the same items.
module _ {ℓ} {A : Type ℓ} where
  Perm-equal : {xs ys : List A} → xs ≡ ys → Perm xs ys
  Perm-equal {xs} e = subst (λ zs. Perm xs zs) e Perm.rfl

  -- What is taken from the middle to the front part.
  Perm-moved :
      (front taken rest last : List A)
      → Perm ((front ++ taken) ++ (rest ++ last)) (front ++ ((taken ++ rest) ++ last))
  Perm-moved front taken rest last = Perm-equal (
      append_assoc front taken (rest ++ last)
      ∙ ap (λ zs. front ++ zs) (sym (append_assoc taken rest last)))

  flatten_last :
      (xss : List (List A)) (xs : List A) → flatten (xss ++ (xs ∷ [])) ≡ flatten xss ++ xs
  flatten_last [] xs = append-nil xs
  flatten_last (ys ∷ xss) xs =
      ap (λ r. ys ++ r) (flatten_last xss xs) ∙ sym (append_assoc ys (flatten xss) xs)

module _ {ℓ} {A : Type ℓ} where
  -- What the callback was given, what goroutines will give it, and what the buffer holds.
  abbrev pub held : Handed A → List (BufferedEvent A)
  held (b, given) = given.called ++ (flatten given.started ++ b.events)

  abbrev pub Keeps : BufferCall A → Type 0
  Keeps clears = ⊥
  Keeps (adds a) = Unit
  Keeps flushes = Unit
  Keeps triggered = Unit
  Keeps sets_callback = Unit
  Keeps (runs n) = Unit

  abbrev pub KeepsAll : List (BufferCall A) → Type 0
  KeepsAll [] = Unit
  KeepsAll (c ∷ cs) = Keeps c × KeepsAll cs

  abbrev sized_event : A → Option ℕ → List (BufferedEvent A)
  sized_event a none = []
  sized_event a (some size) = record { event = a; size = size } ∷ []

  -- A step after which these events have come to those that were held.
  Gains : List (BufferedEvent A) → Handed A → Option (Handed A) → Type ℓ
  Gains more s r =
      (s' : Handed A) × (r ≡ some s')
      × Perm (held s') (held s ++ more)
      × (s'.0.max_events ≡ s.0.max_events)
      × (length s'.0.events ≤ length s.0.events + 1)

  length-snoc :
      (es : List (BufferedEvent A)) (e : BufferedEvent A) → length (es ++ (e ∷ [])) ≤ length es + 1
  length-snoc [] e = omega arith
  length-snoc (x ∷ es) e = let ih = length-snoc es e in omega arith

  unchanged-Gains : (s : Handed A) → Gains [] s (some s)
  unfolding Gains
  unchanged-Gains (b, given) =
      ((b, given), refl, Perm-equal (sym (append-nil (held (b, given)))), refl, omega arith)

  given_now-Gains :
      (t : Bool) (b : MemoryBuffer A) (given : Callbacks A)
      → Gains []
          (b, given)
          (some (handed_now given (if t then (clear_buffer b, some b.events) else (b, none))))
  unfolding Gains clear_buffer
  given_now-Gains false b given = unchanged-Gains (b, given)
  given_now-Gains true b given = (
    (clear_buffer b, record given { called = given.called ++ b.events }),
    refl,
    Perm.trans
        (Perm-equal (
          append_assoc given.called b.events (flatten given.started ++ [])
          ∙ ap (λ zs. given.called ++ (b.events ++ zs)) (append-nil (flatten given.started))))
        (Perm.trans
          (Perm.append_left given.called (perm_append_comm b.events (flatten given.started)))
          (Perm-equal (sym (append-nil (held (b, given)))))),
    refl,
    omega arith,
  )

  given_later-Gains :
      (t : Bool) (b : MemoryBuffer A) (given : Callbacks A)
      → Gains []
          (b, given)
          (some (handed_later given (if t then (clear_buffer b, some b.events) else (b, none))))
  unfolding Gains clear_buffer
  given_later-Gains false b given = unchanged-Gains (b, given)
  given_later-Gains true b given = (
    (clear_buffer b, record given { started = given.started ++ (b.events ∷ []) }),
    refl,
    Perm-equal (
        ap (λ zs. given.called ++ zs)
          (append-nil (flatten (given.started ++ (b.events ∷ [])))
            ∙ flatten_last given.started b.events)
        ∙ sym (append-nil (held (b, given)))),
    refl,
    omega arith,
  )

  -- What a goroutine has is one of the lists.
  abbrev Splits :
      List (List (BufferedEvent A))
      → Option (List (BufferedEvent A) × List (List (BufferedEvent A)))
      → Type ℓ
  Splits all none = Unit
  Splits all (some (events, rest)) = Perm (events ++ flatten rest) (flatten all)

  kept_in_front :
      (first : List (BufferedEvent A)) (all : List (List (BufferedEvent A)))
      (r : Option (List (BufferedEvent A) × List (List (BufferedEvent A))))
      → Splits all r
      → Splits (first ∷ all) (bind r (λ t. some (t.0, first ∷ t.1)))
  kept_in_front first all none h = tt
  kept_in_front first all (some (events, rest)) h =
      Perm.trans (Perm-equal (sym (append_assoc events first (flatten rest)))) (
        Perm.trans (Perm.append_right (flatten rest) (perm_append_comm events first)) (
          Perm.trans (Perm-equal (append_assoc first events (flatten rest)))
            (Perm.append_left first h)))

  taken_out-Splits : (n : ℕ) (all : List (List (BufferedEvent A))) → Splits all (taken_out n all)
  taken_out-Splits n [] = tt
  taken_out-Splits zero (events ∷ rest) = Perm.rfl
  taken_out-Splits (suc n) (events ∷ rest) =
      kept_in_front events rest (taken_out n rest) (taken_out-Splits n rest)

  run_one-Gains :
      (b : MemoryBuffer A) (given : Callbacks A)
      (r : Option (List (BufferedEvent A) × List (List (BufferedEvent A))))
      → Splits given.started r
      → Gains [] (b, given) (some (b, run_one given r))
  unfolding Gains
  run_one-Gains b given none h = unchanged-Gains (b, given)
  run_one-Gains b given (some (events, rest)) h = (
    (b, record { called = given.called ++ events; started = rest }),
    refl,
    Perm.trans (Perm-moved given.called events (flatten rest) b.events) (
        Perm.trans (Perm.append_left given.called (Perm.append_right b.events h))
          (Perm-equal (sym (append-nil (held (b, given)))))),
    refl,
    omega arith,
  )

  add_sized-Gains :
      (a : A) (b : MemoryBuffer A) (given : Callbacks A) (size : Option ℕ)
      → length b.events < b.max_events
      → Gains (sized_event a size) (b, given) (added (b, given) (add_sized a b size))
  unfolding Gains make_buffer_room append_event
  add_sized-Gains a b given none room = unchanged-Gains (b, given)
  add_sized-Gains a b given (some size) room = (
    (append_event a size b, given),
    rw full refl,
    Perm-equal (
        ap (λ zs. given.called ++ zs)
          (sym (
            append_assoc (flatten given.started) b.events (record { event = a; size = size } ∷ [])))
        ∙ sym (
            append_assoc given.called (flatten given.started ++ b.events)
              (record { event = a; size = size } ∷ []))),
    refl,
    length-snoc b.events (record { event = a; size = size }),
  )
    where
      full : leb b.max_events (length b.events) ≡ false
      full = ground arith

module _ {ℓ} {A : Type ℓ} (marshalled : A → Option ℕ) where
  -- The events that the calls add, each with the length of its JSON.
  abbrev pub added_by : BufferCall A → List (BufferedEvent A)
  added_by (adds a) = sized_event a (marshalled a)
  added_by flushes = []
  added_by triggered = []
  added_by clears = []
  added_by sets_callback = []
  added_by (runs n) = []

  abbrev pub added_by_all : List (BufferCall A) → List (BufferedEvent A)
  added_by_all [] = []
  added_by_all (c ∷ cs) = added_by c ++ added_by_all cs

  buffer_call-Gains :
      (c : BufferCall A) (b : MemoryBuffer A) (given : Callbacks A)
      → Keeps c
      → length b.events < b.max_events
      → Gains (added_by c) (b, given) (buffer_call marshalled c (b, given))
  unfolding buffer_call add_to_buffer flush_buffer trigger_flush set_flush_callback Gains
  buffer_call-Gains (adds a) b given keeps room = add_sized-Gains a b given (marshalled a) room
  buffer_call-Gains flushes b given keeps room =
      given_later-Gains (ltb 0 (length b.events) && b.has_callback) b given
  buffer_call-Gains triggered b given keeps room = given_now-Gains (triggers b) b given
  buffer_call-Gains clears b given keeps room = absurd keeps
  buffer_call-Gains sets_callback b given keeps room = (
    (set_flush_callback b, given),
    refl,
    Perm-equal (sym (append-nil (held (b, given)))),
    refl,
    omega arith,
  )
  buffer_call-Gains (runs n) b given keeps room =
      run_one-Gains b given (taken_out n given.started) (taken_out-Splits n given.started)

  -- Calls that are no more than the places left in the buffer, `Clear` not among them, lose no event
  -- and double none: what the callback was given, what the goroutines that have not run will give it
  -- and what the buffer holds are, up to their order, what they were before and every event that the
  -- calls added and that could be marshalled.
  pub buffer_calls-held :
      (cs : List (BufferCall A)) (s : Handed A)
      → KeepsAll cs
      → length s.0.events + length cs ≤ s.0.max_events
      → (s' : Handed A) × (buffer_calls marshalled cs s ≡ some s')
        × Perm (held s') (held s ++ added_by_all cs)
  unfolding buffer_calls Gains
  buffer_calls-held [] s keeps room = (s, refl, Perm-equal (sym (append-nil (held s))))
  buffer_calls-held (c ∷ cs) (b, given) (k, keeps) room =
      let (s', called, gained, limit, grown) = buffer_call-Gains c b given k (omega arith) in
      let (s'', rest, all) = buffer_calls-held cs s' keeps (omega arith) in
      (
        s'',
        rw called rest,
        Perm.trans all (
            Perm.trans (Perm.append_right (added_by_all cs) gained)
              (Perm-equal (append_assoc (held (b, given)) (added_by c) (added_by_all cs)))),
      )
