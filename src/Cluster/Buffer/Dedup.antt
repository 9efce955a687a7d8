-- ===== src/Cluster/Buffer/Dedup.antt =====
-- pkg/cluster/event_buffer.go: within the limit of time an event is taken once.
use go_mongo_sync.Prelude.{
  ℕ, ◌-◌, ◌+◌, ◌≤◌, ◌<◌, ◌≡◌, refl, sym, ap, ◌∙◌, Bool, true, false, Bool-cases, inl, inr, Option,
  none, some, List, [], ◌∷◌, ltb, lt→ltb, ltb→lt, le→ltb, All, if◌then◌else◌, arith,
}
use go_mongo_sync.Prelude.Bytes.{Bytes, bytes_eq, bytes_eq→eq}
use go_mongo_sync.Prelude.Maps.{
  lookup, assign, lookup-assign, lookup-assign_self, IsMap, assign-IsMap,
}
use mathlib.Core.Bool.{false≢true}
use go_mongo_sync.Models.{ChangeEvent}
use go_mongo_sync.Cluster.Buffer.{
  Formats, EventBuffer, add_event, cleanup_expired_events, unexpired_ids, is_recent,
  generate_event_id, put_event,
}

-- What other goroutines do to a buffer in the meantime.
pub data Op : Type 0 where
  add : ChangeEvent → ℕ → Op
  cleanup : ℕ → Op

abbrev pub time_of : Op → ℕ
time_of (add e now) = now
time_of (cleanup now) = now

module _ (formats : Formats) where
  abbrev pub op : Op → EventBuffer → EventBuffer
  op (add e now) eb = (add_event formats e now eb).1
  op (cleanup now) eb = cleanup_expired_events now eb

  unfoldable pub run : List Op → EventBuffer → EventBuffer
  run [] eb = eb
  run (o ∷ os) eb = run os (op o eb)

-- Every operation of a list comes before a time.
abbrev pub AllBefore : ℕ → List Op → Type 0
AllBefore limit os = All (λ o. time_of o < limit) os

-- Of a time at which an id was seen what a cleanup leaves.
abbrev pub kept : ℕ → ℕ → Option ℕ → Option ℕ
kept now ttl none = none
kept now ttl (some seen) = if ltb ttl (now - seen) then none else some seen

lookup-skips :
    (b : Bool) (id k : Bytes) (t : ℕ) (m : List (Bytes × ℕ))
    → bytes_eq id k ≡ false
    → lookup id (if b then m else (k, t) ∷ m) ≡ lookup id m
unfolding lookup
lookup-skips true id k t m e = refl
lookup-skips false id k t m e = rw e refl

lookup-finds :
    (b : Bool) (id k : Bytes) (t : ℕ) (m : List (Bytes × ℕ))
    → bytes_eq id k ≡ true
    → lookup id m ≡ none
    → lookup id (if b then m else (k, t) ∷ m) ≡ (if b then none else some t)
unfolding lookup
lookup-finds true id k t m e h = h
lookup-finds false id k t m e h = rw e refl

lookup-unexpired_ids :
    (now ttl : ℕ) (id : Bytes) (m : List (Bytes × ℕ))
    → IsMap m
    → lookup id (unexpired_ids now ttl m) ≡ kept now ttl (lookup id m)
unfolding lookup unexpired_ids IsMap
lookup-unexpired_ids now ttl id [] h = refl
lookup-unexpired_ids now ttl id ((k, t) ∷ m) h = elim (Bool-cases (bytes_eq id k)) [
  | inl e ↦ rw e (
      lookup-finds (ltb ttl (now - t)) id k t (unexpired_ids now ttl m) e (
        lookup-unexpired_ids now ttl id m h.1
        ∙ ap (kept now ttl) (ap (λ x. lookup x m) (bytes_eq→eq id k e) ∙ h.0)))
  | inr e ↦ rw e (
      lookup-skips (ltb ttl (now - t)) id k t (unexpired_ids now ttl m) e
      ∙ lookup-unexpired_ids now ttl id m h.1)
]

unexpired_if-IsMap :
    (b : Bool) (k : Bytes) (t : ℕ) (m : List (Bytes × ℕ))
    → lookup k m ≡ none
    → IsMap m
    → IsMap (if b then m else (k, t) ∷ m)
unfolding IsMap
unexpired_if-IsMap true k t m e h = h
unexpired_if-IsMap false k t m e h = (e, h)

unexpired_ids-IsMap :
    (now ttl : ℕ) (m : List (Bytes × ℕ)) → IsMap m → IsMap (unexpired_ids now ttl m)
unfolding unexpired_ids IsMap
unexpired_ids-IsMap now ttl [] h = tt
unexpired_ids-IsMap now ttl ((k, t) ∷ m) h =
    unexpired_if-IsMap (ltb ttl (now - t)) k t (unexpired_ids now ttl m)
      (lookup-unexpired_ids now ttl k m h.1 ∙ ap (kept now ttl) h.0)
      (unexpired_ids-IsMap now ttl m h.1)

is_recent-kept :
    (now later ttl : ℕ) (o : Option ℕ)
    → now ≤ later
    → is_recent later ttl (kept now ttl o) ≡ is_recent later ttl o
is_recent-kept now later ttl none h = refl
is_recent-kept now later ttl (some seen) h = elim (Bool-cases (ltb ttl (now - seen))) [
  | inl e ↦ rw e (sym (le→ltb (later - seen) ttl (omega (arith, ltb→lt ttl (now - seen) e))))
  | inr e ↦ rw e refl
]

add_event-answer :
    (formats : Formats) (e : ChangeEvent) (now : ℕ) (eb : EventBuffer)
    → (add_event formats e now eb).0 ≡ (
        if is_recent now eb.ttl (lookup (generate_event_id formats e) eb.seen_events)
        then false
        else true)
unfolding add_event
add_event-answer formats e now eb =
    elim (Bool-cases (is_recent now eb.ttl (lookup (generate_event_id formats e) eb.seen_events))) [
      | inl h ↦ rw h refl
      | inr h ↦ rw h refl
    ]

-- A cleanup is not seen by what comes later: whether an event is taken is the same with it and
-- without it.
pub add_event-cleanup_expired_events :
    (formats : Formats) (e : ChangeEvent) (now later : ℕ) (eb : EventBuffer)
    → IsMap eb.seen_events
    → now ≤ later
    → (add_event formats e later (cleanup_expired_events now eb)).0
      ≡ (add_event formats e later eb).0
unfolding cleanup_expired_events
add_event-cleanup_expired_events formats e now later eb v h =
    add_event-answer formats e later (cleanup_expired_events now eb)
    ∙ (ap (λ b. if b then false else true)
          (ap (is_recent later eb.ttl) (lookup-unexpired_ids now eb.ttl id eb.seen_events v)
            ∙ is_recent-kept now later eb.ttl (lookup id eb.seen_events) h)
        ∙ sym (add_event-answer formats e later eb))
  where
    id : Bytes
    id = generate_event_id formats e

-- What holds of a buffer in which an id was seen at a time.
record Seen (id : Bytes) (t ttl : ℕ) (eb : EventBuffer) : Type 0 where
  seen_once : IsMap eb.seen_events
  seen_at : lookup id eb.seen_events ≡ some t
  same_ttl : eb.ttl ≡ ttl

is_recent-within : (now t ttl : ℕ) → 0 < ttl → now < t + ttl → is_recent now ttl (some t) ≡ true
is_recent-within now t ttl h h' = lt→ltb (now - t) ttl (omega arith)

kept-within : (now t ttl : ℕ) → now < t + ttl → kept now ttl (some t) ≡ some t
kept-within now t ttl h = rw (le→ltb ttl (now - t) (omega arith)) refl

add_event-refuses :
    (formats : Formats) (id : Bytes) (t ttl : ℕ) (e : ChangeEvent) (now : ℕ) (eb : EventBuffer)
    → Seen id t ttl eb
    → 0 < ttl
    → now < t + ttl
    → generate_event_id formats e ≡ id
    → add_event formats e now eb ≡ (false, eb)
unfolding add_event
add_event-refuses formats id t ttl e now eb s h h' same =
    rw (same, s.seen_at, s.same_ttl, is_recent-within now t ttl h h') refl

add_event-new :
    (formats : Formats) (e : ChangeEvent) (now : ℕ) (eb : EventBuffer)
    → is_recent now eb.ttl (lookup (generate_event_id formats e) eb.seen_events) ≡ false
    → add_event formats e now eb ≡ (
      true,
      record eb {
        seen_events = assign (generate_event_id formats e) now eb.seen_events;
        events = put_event e eb.events;
      },
    )
unfolding add_event
add_event-new formats e now eb h = rw h refl

add_event-old :
    (formats : Formats) (e : ChangeEvent) (now : ℕ) (eb : EventBuffer)
    → is_recent now eb.ttl (lookup (generate_event_id formats e) eb.seen_events) ≡ true
    → add_event formats e now eb ≡ (false, eb)
unfolding add_event
add_event-old formats e now eb h = rw h refl

-- A new event has another id than one that was seen within the limit.
new-other :
    (formats : Formats) (id : Bytes) (t ttl : ℕ) (e : ChangeEvent) (now : ℕ) (eb : EventBuffer)
    → Seen id t ttl eb
    → 0 < ttl
    → now < t + ttl
    → is_recent now eb.ttl (lookup (generate_event_id formats e) eb.seen_events) ≡ false
    → bytes_eq id (generate_event_id formats e) ≡ false
new-other formats id t ttl e now eb s h h' new =
    elim (Bool-cases (bytes_eq id (generate_event_id formats e))) [
      | inl same ↦ absurd (
          false≢true (
            sym new
            ∙ (ap (λ x. is_recent now eb.ttl (lookup x eb.seen_events))
                  (sym (bytes_eq→eq id (generate_event_id formats e) same))
                ∙ (ap (is_recent now eb.ttl) s.seen_at
                    ∙ (ap (λ l. is_recent now l (some t)) s.same_ttl
                        ∙ is_recent-within now t ttl h h')))))
      | inr other ↦ other
    ]

add_event-Seen :
    (formats : Formats) (id : Bytes) (t ttl : ℕ) (e : ChangeEvent) (now : ℕ) (eb : EventBuffer)
    → Seen id t ttl eb
    → 0 < ttl
    → now < t + ttl
    → Seen id t ttl (add_event formats e now eb).1
add_event-Seen formats id t ttl e now eb s h h' =
    elim (Bool-cases (is_recent now eb.ttl (lookup (generate_event_id formats e) eb.seen_events))) [
      | inl old ↦ rw (add_event-old formats e now eb old) s
      | inr new ↦ rw (add_event-new formats e now eb new) (record {
        seen_once = assign-IsMap (generate_event_id formats e) now eb.seen_events s.seen_once;
        seen_at =
            lookup-assign id (generate_event_id formats e) now eb.seen_events
            ∙ rw (new-other formats id t ttl e now eb s h h' new) s.seen_at;
        same_ttl = s.same_ttl;
      })
    ]

cleanup-Seen :
    (id : Bytes) (t ttl now : ℕ) (eb : EventBuffer)
    → Seen id t ttl eb
    → now < t + ttl
    → Seen id t ttl (cleanup_expired_events now eb)
unfolding cleanup_expired_events
cleanup-Seen id t ttl now eb s h = record {
  seen_once = unexpired_ids-IsMap now eb.ttl eb.seen_events s.seen_once;
  seen_at =
      lookup-unexpired_ids now eb.ttl id eb.seen_events s.seen_once
      ∙ (ap (kept now eb.ttl) s.seen_at
          ∙ (ap (λ l. kept now l (some t)) s.same_ttl ∙ kept-within now t ttl h));
  same_ttl = s.same_ttl;
}

op-Seen :
    (formats : Formats) (id : Bytes) (t ttl : ℕ) (o : Op) (eb : EventBuffer)
    → Seen id t ttl eb
    → 0 < ttl
    → time_of o < t + ttl
    → Seen id t ttl (op formats o eb)
op-Seen formats id t ttl (add e now) eb s h h' = add_event-Seen formats id t ttl e now eb s h h'
op-Seen formats id t ttl (cleanup now) eb s h h' = cleanup-Seen id t ttl now eb s h'

run-Seen :
    (formats : Formats) (id : Bytes) (t ttl : ℕ) (os : List Op) (eb : EventBuffer)
    → Seen id t ttl eb
    → 0 < ttl
    → AllBefore (t + ttl) os
    → Seen id t ttl (run formats os eb)
unfolding run
run-Seen formats id t ttl [] eb s h before = s
run-Seen formats id t ttl (o ∷ os) eb s h before =
    run-Seen formats id t ttl os (op formats o eb) (op-Seen formats id t ttl o eb s h before.0) h
      before.1

taken-Seen :
    (formats : Formats) (e : ChangeEvent) (t : ℕ) (eb : EventBuffer)
    → IsMap eb.seen_events
    → (add_event formats e t eb).0 ≡ true
    → Seen (generate_event_id formats e) t eb.ttl (add_event formats e t eb).1
taken-Seen formats e t eb v taken =
    elim (Bool-cases (is_recent t eb.ttl (lookup (generate_event_id formats e) eb.seen_events))) [
      | inl old ↦
          absurd (false≢true (sym (ap (λ r. r.0) (add_event-old formats e t eb old)) ∙ taken))
      | inr new ↦ rw (add_event-new formats e t eb new) (record {
        seen_once = assign-IsMap (generate_event_id formats e) t eb.seen_events v;
        seen_at = lookup-assign_self (generate_event_id formats e) t eb.seen_events;
        same_ttl = refl;
      })
    ]

-- Once an event is taken, an event with the same id is refused, and changes nothing, until the limit
-- has passed, whatever events are added and however often the buffer is cleaned up in between.
pub duplicate_refused :
    (formats : Formats) (e e' : ChangeEvent) (t now : ℕ) (os : List Op) (eb : EventBuffer)
    → IsMap eb.seen_events
    → 0 < eb.ttl
    → (add_event formats e t eb).0 ≡ true
    → AllBefore (t + eb.ttl) os
    → now < t + eb.ttl
    → generate_event_id formats e' ≡ generate_event_id formats e
    → let later = run formats os (add_event formats e t eb).1 in
      add_event formats e' now later ≡ (false, later)
duplicate_refused formats e e' t now os eb v h taken before h' same =
    add_event-refuses formats (generate_event_id formats e) t eb.ttl e' now
      (run formats os (add_event formats e t eb).1)
      (run-Seen formats (generate_event_id formats e) t eb.ttl os (add_event formats e t eb).1
        (taken-Seen formats e t eb v taken) h before)
      h h' same
