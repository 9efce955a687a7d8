-- ===== src/Transport/Receiver/Streams.antt =====
-- pkg/transport/receiver.go: the map of the streams and the numbers that a stream has met.
use go_mongo_sync.Prelude.{
  ℕ, ◌≡◌, refl, ap, ◌∙◌, Bool, true, false, ◌||◌, ==_iff, Bool-cases, inl, inr, some, List, [], ◌∷◌,
  ◌==◌, arith,
}
use go_mongo_sync.Transport.Receiver.{StreamState, contains, find_stream, put_stream}

pub find_stream-put_stream :
    (t : StreamState) (ss : List StreamState) → find_stream t.stream_id (put_stream t ss) ≡ some t
unfolding find_stream put_stream
find_stream-put_stream t [] = ground arith
find_stream-put_stream t (s ∷ ss) = ground (arith, find_stream-put_stream t ss)

pub find_stream_id :
    (id : ℕ) (ss : List StreamState) {s : StreamState}
    → find_stream id ss ≡ some s
    → s.stream_id ≡ id
unfolding find_stream
find_stream_id id [] h = cc
find_stream_id id (t ∷ ss) {s} h = elim (Bool-cases (t.stream_id == id)) [
  | inl e ↦ ground (arith, e)
  | inr ne ↦ find_stream_id id ss (rw ne at h)
]

pub find_stream-other :
    (id : ℕ) (t : StreamState) (ss : List StreamState)
    → (t.stream_id == id) ≡ false
    → find_stream id (put_stream t ss) ≡ find_stream id ss
unfolding find_stream put_stream
find_stream-other id t [] ne = rw ne refl
find_stream-other id t (s ∷ ss) ne = elim (Bool-cases (s.stream_id == t.stream_id)) [
  | inl e ↦ rw (e, ne) (rw (ap (λ i. i == id) ((==_iff s.stream_id t.stream_id).0 e) ∙ ne) refl)
  | inr e ↦ rw e (elim (Bool-cases (s.stream_id == id)) [
    | inl h ↦ rw h refl
    | inr h ↦ rw h (find_stream-other id t ss ne)
  ])
]

pub some_injective : {x y : StreamState} → some x ≡ some y → x ≡ y
some_injective h = cc

pub contains_later : (n k : ℕ) (ns : List ℕ) → contains n ns ≡ true → contains n (k ∷ ns) ≡ true
unfolding contains
contains_later n k ns h = rw h (or_true (n == k))
  where
    or_true : (b : Bool) → (b || true) ≡ true
    or_true true = refl
    or_true false = refl

pub contains_self : (n : ℕ) (ns : List ℕ) → contains n (n ∷ ns) ≡ true
unfolding contains
contains_self n ns = ground arith
