-- ===== src/Memory/Buffer/Bounded.antt =====
-- pkg/memory/buffer.go: the bound of the buffer and its size in bytes.
use go_mongo_sync.Prelude.{
  ℕ, ◌+◌, ◌-◌, ◌<◌, ◌≤◌, ◌≡◌, refl, ap, ◌∙◌, subst, ◌&&◌, Option, none, some, List, [], ◌∷◌, ◌++◌,
  length, leb, ltb, inl, inr, Bool-cases, arith,
}
use go_mongo_sync.Memory.Buffer.{
  BufferedEvent, MemoryBuffer, new_memory_buffer, set_flush_callback, make_buffer_room,
  append_event, triggers, add_to_buffer, clear_buffer, flush_buffer, trigger_flush, BufferCall,
  adds, flushes, triggered, clears, sets_callback, Handed, buffer_call, buffer_calls,
  without_oldest, add_sized, added, handed_now, handed_later, runs, Callbacks,
}

module _ {ℓ} {A : Type ℓ} where
  unfoldable bytes_of : List (BufferedEvent A) → ℕ
  bytes_of [] = 0
  bytes_of (e ∷ es) = e.size + bytes_of es

  -- A buffer for at most `m` events, whose size is that of its events.
  record IsBounded (m : ℕ) (b : MemoryBuffer A) : Type ℓ where
    pub limit : b.max_events ≡ m
    pub positive : 0 < m
    pub fits : length b.events ≤ m
    pub sized : b.total_size ≡ bytes_of b.events

  length-snoc :
      (es : List (BufferedEvent A)) (e : BufferedEvent A) → length (es ++ (e ∷ [])) ≡ length es + 1
  length-snoc [] e = refl
  length-snoc (x ∷ es) e = let ih = length-snoc es e in omega arith

  bytes_of-snoc :
      (es : List (BufferedEvent A)) (e : BufferedEvent A)
      → bytes_of (es ++ (e ∷ [])) ≡ bytes_of es + e.size
  unfolding bytes_of
  bytes_of-snoc [] e = omega arith
  bytes_of-snoc (x ∷ es) e = let ih = bytes_of-snoc es e in omega arith

  -- Room for one more event.
  HasRoom : ℕ → Option (MemoryBuffer A) → Type ℓ
  HasRoom m r = (b : MemoryBuffer A) × (r ≡ some b) × IsBounded m b × (length b.events < m)

  without_oldest-HasRoom :
      (m : ℕ) (es : List (BufferedEvent A)) (b : MemoryBuffer A)
      → b.events ≡ es
      → m ≤ length es
      → IsBounded m b
      → HasRoom m (without_oldest es b)
  unfolding HasRoom bytes_of
  without_oldest-HasRoom m [] b here full valid = let p = valid.positive in absurd (omega arith)
  without_oldest-HasRoom m (e ∷ es) b here full valid =
      let p = valid.positive in
      let f = subst (λ x. length x ≤ m) here valid.fits in
      let z = valid.sized ∙ ap bytes_of here in
      (
        record b { events = es; total_size = b.total_size - e.size },
        refl,
        record { limit = valid.limit; positive = p; fits = omega arith; sized = omega arith },
        omega arith,
      )

  make_buffer_room-HasRoom :
      (m : ℕ) (b : MemoryBuffer A) → IsBounded m b → HasRoom m (make_buffer_room b)
  unfolding make_buffer_room HasRoom
  make_buffer_room-HasRoom m b valid = elim (Bool-cases (leb b.max_events (length b.events))) [
    | inl h ↦
        rw h (let l = valid.limit in without_oldest-HasRoom m b.events b refl (ground arith) valid)
    | inr h ↦ rw h (b, refl, valid, (let l = valid.limit in ground arith))
  ]

  append_event-IsBounded :
      (m : ℕ) (a : A) (size : ℕ) (b : MemoryBuffer A)
      → IsBounded m b
      → length b.events < m
      → IsBounded m (append_event a size b)
  unfolding append_event
  append_event-IsBounded m a size b valid room =
      let z = valid.sized in
      let n = length-snoc b.events (record { event = a; size = size }) in
      let t = bytes_of-snoc b.events (record { event = a; size = size }) in
      record {
        limit = valid.limit;
        positive = valid.positive;
        fits = omega arith;
        sized = omega arith;
      }

  clear_buffer-IsBounded :
      (m : ℕ) (b : MemoryBuffer A) → IsBounded m b → IsBounded m (clear_buffer b)
  unfolding clear_buffer bytes_of
  clear_buffer-IsBounded m b valid =
      let p = valid.positive in
      record { limit = valid.limit; positive = p; fits = omega arith; sized = refl }

  flush_buffer-IsBounded :
      (m : ℕ) (b : MemoryBuffer A) → IsBounded m b → IsBounded m ((flush_buffer b).0)
  unfolding flush_buffer
  flush_buffer-IsBounded m b valid = elim (Bool-cases (ltb 0 (length b.events) && b.has_callback)) [
    | inl h ↦ rw h (clear_buffer-IsBounded m b valid)
    | inr h ↦ rw h valid
  ]

  trigger_flush-IsBounded :
      (m : ℕ) (b : MemoryBuffer A) → IsBounded m b → IsBounded m ((trigger_flush b).0)
  unfolding trigger_flush
  trigger_flush-IsBounded m b valid = elim (Bool-cases (triggers b)) [
    | inl h ↦ rw h (clear_buffer-IsBounded m b valid)
    | inr h ↦ rw h valid
  ]

  set_flush_callback-IsBounded :
      (m : ℕ) (b : MemoryBuffer A) → IsBounded m b → IsBounded m (set_flush_callback b)
  unfolding set_flush_callback
  set_flush_callback-IsBounded m b valid = record {
    limit = valid.limit;
    positive = valid.positive;
    fits = valid.fits;
    sized = valid.sized;
  }

  -- A call that ends, with a buffer in its bound.
  Ends : ℕ → Option (Handed A) → Type ℓ
  Ends m r = (s : Handed A) × (r ≡ some s) × IsBounded m s.0

  handed_now-Ends :
      (m : ℕ) (given : Callbacks A) (r : MemoryBuffer A × Option (List (BufferedEvent A)))
      → IsBounded m r.0
      → Ends m (some (handed_now given r))
  unfolding Ends
  handed_now-Ends m given (b, none) valid = (_, refl, valid)
  handed_now-Ends m given (b, some events) valid = (_, refl, valid)

  handed_later-Ends :
      (m : ℕ) (given : Callbacks A) (r : MemoryBuffer A × Option (List (BufferedEvent A)))
      → IsBounded m r.0
      → Ends m (some (handed_later given r))
  unfolding Ends
  handed_later-Ends m given (b, none) valid = (_, refl, valid)
  handed_later-Ends m given (b, some events) valid = (_, refl, valid)

abbrev no_callbacks {ℓ} : {A : Type ℓ} → Callbacks A
no_callbacks = record { called = []; started = [] }

module _ {ℓ} {A : Type ℓ} (marshalled : A → Option ℕ) where
  add_sized-Ends :
      (m : ℕ) (a : A) (b : MemoryBuffer A) (given : Callbacks A) (size : Option ℕ)
      → IsBounded m b
      → Ends m (added (b, given) (add_sized a b size))
  unfolding Ends HasRoom
  add_sized-Ends m a b given none valid = ((b, given), refl, valid)
  add_sized-Ends m a b given (some size) valid =
      let (b', made, valid', room) = make_buffer_room-HasRoom m b valid in
      (
        (append_event a size b', given),
        rw made refl,
        append_event-IsBounded m a size b' valid' room,
      )

  buffer_call-Ends :
      (m : ℕ) (c : BufferCall A) (b : MemoryBuffer A) (given : Callbacks A)
      → IsBounded m b
      → Ends m (buffer_call marshalled c (b, given))
  unfolding buffer_call add_to_buffer Ends
  buffer_call-Ends m (adds a) b given valid = add_sized-Ends m a b given (marshalled a) valid
  buffer_call-Ends m flushes b given valid =
      handed_later-Ends m given (flush_buffer b) (flush_buffer-IsBounded m b valid)
  buffer_call-Ends m triggered b given valid =
      handed_now-Ends m given (trigger_flush b) (trigger_flush-IsBounded m b valid)
  buffer_call-Ends m clears b given valid =
      ((clear_buffer b, given), refl, clear_buffer-IsBounded m b valid)
  buffer_call-Ends m sets_callback b given valid =
      ((set_flush_callback b, given), refl, set_flush_callback-IsBounded m b valid)
  buffer_call-Ends m (runs n) b given valid = (_, refl, valid)

  buffer_calls-Ends :
      (m : ℕ) (cs : List (BufferCall A)) (s : Handed A)
      → IsBounded m s.0
      → Ends m (buffer_calls marshalled cs s)
  unfolding buffer_calls Ends
  buffer_calls-Ends m [] s valid = (s, refl, valid)
  buffer_calls-Ends m (c ∷ cs) (b, given) valid =
      let (s', called, valid') = buffer_call-Ends m c b given valid in
      rw called (buffer_calls-Ends m cs s' valid')

  -- A new buffer for at least one event comes through any calls without a panic; after them it holds
  -- at most as many events as it is for, and its size is the sum of theirs.
  buffer_calls-IsBounded :
      (m flush_size : ℕ) (cs : List (BufferCall A))
      → 0 < m
      → (s : Handed A) × (buffer_calls marshalled cs (new_memory_buffer m flush_size, no_callbacks)
          ≡ some s)
        × IsBounded m s.0
  unfolding Ends new_memory_buffer bytes_of
  buffer_calls-IsBounded m flush_size cs positive =
      buffer_calls-Ends m cs (new_memory_buffer m flush_size, no_callbacks)
        (record { limit = refl; positive = positive; fits = omega arith; sized = refl })
