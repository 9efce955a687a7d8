-- ===== src/Transport/Queue/Refine.antt =====
-- pkg/transport/buffer.go: the ring buffer holds a first-in first-out queue.
use native.Mathlib.Nat.{mod-eq_of_lt, mod-eq-sub-mod, mod-add-mod, add-zero}
use go_mongo_sync.Prelude.{
  ℕ, zero, suc, ◌+◌, ◌-◌, ◌%◌, ◌≤◌, ◌<◌, ◌≡◌, ◌≢◌, refl, sym, ap, ◌∙◌, subst, Bool-cases, inl, inr,
  Option, none, some, List, [], ◌∷◌, ◌++◌, ltb, length, get_or, set, replicate, arith,
  length-append, ltb→lt, ltb→le, ◌⊎◌,
}
use go_mongo_sync.Transport.Queue.{Queue, new_queue, put, take_item}

module _ {ℓ} {A : Type ℓ} where
  length-set : (xs : List A) (i : ℕ) (v : A) → length (set xs i v) ≡ length xs
  length-set [] i v = refl
  length-set (x ∷ xs) zero v = refl
  length-set (x ∷ xs) (suc i) v = ap suc (length-set xs i v)

  get_or-set_self : (xs : List A) (i : ℕ) (v d : A) → i < length xs → get_or (set xs i v) i d ≡ v
  get_or-set_self [] i v d h = absurd (omega arith)
  get_or-set_self (x ∷ xs) zero v d h = refl
  get_or-set_self (x ∷ xs) (suc i) v d h = get_or-set_self xs i v d (omega arith)

  get_or-set_ne :
      (xs : List A) (i j : ℕ) (v d : A) → j ≢ i → get_or (set xs i v) j d ≡ get_or xs j d
  get_or-set_ne [] i j v d h = refl
  get_or-set_ne (x ∷ xs) zero zero v d h = absurd (h refl)
  get_or-set_ne (x ∷ xs) zero (suc j) v d h = refl
  get_or-set_ne (x ∷ xs) (suc i) zero v d h = refl
  get_or-set_ne (x ∷ xs) (suc i) (suc j) v d h = get_or-set_ne xs i j v d (λ e. h (ap suc e))

  length-replicate : (n : ℕ) (a : A) → length (replicate n a) ≡ n
  length-replicate zero a = refl
  length-replicate (suc n) a = ap suc (length-replicate n a)

-- One turn round the ring.
mod_once : (a n : ℕ) → a < n + n → ((a < n) × (a % n ≡ a)) ⊎ ((n ≤ a) × (a % n ≡ a - n))
mod_once a n h = elim (Bool-cases (ltb a n)) [
  | inl lt ↦ inl (ltb→lt a n lt, mod-eq_of_lt (ltb→lt a n lt))
  | inr ge ↦ inr (
    ltb→le a n ge,
    mod-eq-sub-mod {n = a} {m = n} (ltb→le a n ge)
        ∙ mod-eq_of_lt {n = a - n} {m = n} (omega (arith, ltb→le a n ge)),
  )
]

-- Two places of a window no longer than the ring are different.
place_ne : (n h j k : ℕ) → h < n → j < k → k < n → (h + j) % n ≢ (h + k) % n
place_ne n h j k hh jk kn e =
    omega (arith, mod_once (h + j) n (omega arith), mod_once (h + k) n (omega arith))

-- The cells from index `h` on, going round at `n`, hold the items `xs`.
abbrev pub Window {ℓ} : {A : Type ℓ} → List (Option A) → ℕ → ℕ → List A → Type ℓ
Window buf n h [] = Unit
Window buf n h (x ∷ xs) = (get_or buf h none ≡ some x) × Window buf n ((h + 1) % n) xs

-- The queue `q` holds the items `xs`, the first to leave in front.
pub record Represents {ℓ} {A : Type ℓ} (q : Queue A) (xs : List A) : Type ℓ where
  pub capacity_pos : 0 < q.capacity
  pub buffer_length : length q.buffer ≡ q.capacity
  pub read_fits : q.read_idx < q.capacity
  pub size_eq : q.size ≡ length xs
  pub bounded : length xs ≤ q.capacity
  pub write_eq : q.write_idx ≡ (q.read_idx + length xs) % q.capacity
  pub window : Window q.buffer q.capacity q.read_idx xs

place_suc : (n h k : ℕ) → ((h + 1) % n + k) % n ≡ (h + suc k) % n
place_suc n h k =
    let e : h + 1 + k ≡ h + suc k = omega arith in mod-add-mod (h + 1) n k ∙ ap (λ m. m % n) e

module _ {ℓ} {A : Type ℓ} (n : ℕ) where
  -- A write outside the window leaves it.
  Window-set_ne :
      (buf : List (Option A)) (i : ℕ) (v : Option A) (h : ℕ) (xs : List A)
      → h < n
      → ((k : ℕ) → k < length xs → (h + k) % n ≢ i)
      → Window buf n h xs
      → Window (set buf i v) n h xs
  Window-set_ne buf i v h [] hn out w = w
  Window-set_ne buf i v h (x ∷ xs) hn out w = (
    get_or-set_ne buf i h v none (λ e. out 0 (omega arith) (rw add-zero (mod-eq_of_lt hn ∙ e)))
        ∙ w.0,
    Window-set_ne buf i v ((h + 1) % n) xs (omega arith)
        (λ k lt e. out (suc k) (omega arith) (sym (place_suc n h k) ∙ e)) w.1,
  )

  -- A window that is followed by a cell with `x` is one item longer.
  Window-append :
      (buf : List (Option A)) (h : ℕ) (xs : List A) (x : A)
      → h < n
      → Window buf n h xs
      → get_or buf ((h + length xs) % n) none ≡ some x
      → Window buf n h (xs ++ (x ∷ []))
  Window-append buf h [] x hn w e =
      (ap (λ i. get_or buf i none) (sym (rw add-zero (mod-eq_of_lt hn))) ∙ e, tt)
  Window-append buf h (y ∷ ys) x hn w e = (
    w.0,
    Window-append buf ((h + 1) % n) ys x (omega arith) w.1
        (ap (λ i. get_or buf i none) (place_suc n h (length ys)) ∙ e),
  )

module _ {ℓ} {A : Type ℓ} where
  -- A new queue holds nothing.
  pub new_queue-Represents : (capacity : ℕ) → Represents (new_queue {A = A} capacity) []
  unfolding new_queue
  new_queue-Represents zero = record {
    capacity_pos = omega arith;
    buffer_length = length-replicate {A = Option A} _ none;
    read_fits = omega arith;
    size_eq = refl;
    bounded = omega arith;
    write_eq = refl;
    window = tt;
  }
  new_queue-Represents (suc n) = record {
    capacity_pos = ground arith;
    buffer_length = length-replicate {A = Option A} _ none;
    read_fits = ground arith;
    size_eq = refl;
    bounded = omega arith;
    write_eq = omega arith;
    window = tt;
  }

  -- An item that is put into a queue with space stands behind all the others.
  pub put-Represents :
      (q : Queue A) (xs : List A) (x : A)
      → Represents q xs
      → q.size < q.capacity
      → Represents (put q x) (xs ++ (x ∷ []))
  unfolding put
  put-Represents q xs x r space = record {
    capacity_pos = r.capacity_pos;
    buffer_length = length-set q.buffer q.write_idx (some x) ∙ r.buffer_length;
    read_fits = r.read_fits;
    size_eq = omega (arith, r.size_eq, length-append xs (x ∷ []));
    bounded = omega (arith, r.size_eq, length-append xs (x ∷ []));
    write_eq =
        ap (λ w. (w + 1) % q.capacity) r.write_eq
        ∙ (mod-add-mod (q.read_idx + length xs) q.capacity 1
            ∙ ap (λ m. m % q.capacity) (sum_suc (length-append xs (x ∷ []))));
    window =
        Window-append q.capacity _ q.read_idx xs x r.read_fits
          (Window-set_ne q.capacity q.buffer q.write_idx (some x) q.read_idx xs r.read_fits
            (λ k lt e.
              place_ne q.capacity q.read_idx k (length xs) r.read_fits lt (omega (arith, r.size_eq))
                (e ∙ r.write_eq))
            r.window)
          (ap (λ i. get_or (set q.buffer q.write_idx (some x)) i none) (sym r.write_eq)
            ∙ get_or-set_self q.buffer q.write_idx (some x) none in_buffer);
  }
    where
      sum_suc : {m : ℕ} → m ≡ length xs + 1 → q.read_idx + length xs + 1 ≡ q.read_idx + m
      sum_suc e = omega arith

      in_buffer : q.write_idx < length q.buffer
      in_buffer =
          subst (λ i. i < length q.buffer) (sym r.write_eq)
            (omega (arith, r.capacity_pos, r.buffer_length))

  -- What is taken out of a queue is the item in front, and the others stay in order.
  pub take_item-Represents :
      (q : Queue A) (x : A) (xs : List A)
      → Represents q (x ∷ xs)
      → ((take_item q).0 ≡ some x) × Represents (take_item q).1 xs
  unfolding take_item
  take_item-Represents q x xs r = (
    r.window.0,
    record {
      capacity_pos = r.capacity_pos;
      buffer_length = length-set q.buffer q.read_idx none ∙ r.buffer_length;
      read_fits = omega (arith, r.capacity_pos);
      size_eq = omega (arith, r.size_eq);
      bounded = omega (arith, r.bounded);
      write_eq = r.write_eq ∙ sym (place_suc q.capacity q.read_idx (length xs));
      window =
          Window-set_ne q.capacity q.buffer q.read_idx none ((q.read_idx + 1) % q.capacity) xs
            (omega (arith, r.capacity_pos))
            (λ k lt e.
              place_ne q.capacity q.read_idx 0 (suc k) r.read_fits (omega arith)
                (omega (arith, r.bounded))
                (rw add-zero (mod-eq_of_lt r.read_fits)
                  ∙ (sym e ∙ place_suc q.capacity q.read_idx k)))
            r.window.1;
    },
  )
