-- ===== src/Lifecycle/Events.antt =====
-- The events of an order are numbered 1, 2, 3 and so on.
use mathlib.Core.List.{append-nil}
use order_agent.Prelude.{
  ℕ, suc, ◌+◌, max, ◌≡◌, refl, Bool, List, [], ◌∷◌, ◌++◌, arith, length, ◌==◌, if◌then◌else◌,
  length-append,
}
use order_agent.Enums.{OrderStatus, ActorType}
use order_agent.Errors.{ok}
use order_agent.Records.{Order, OrderEvent, Payload, last_sequence, next_event_sequence}
use order_agent.Lifecycle.{transition, transition_event}

-- The sequence numbers of an order's events, in the order in which they were added.
abbrev pub sequences : ℕ → List OrderEvent → List ℕ
sequences id [] = []
sequences id (e ∷ es) =
    let rest = sequences id es in if e.order_id == id then e.sequence_number ∷ rest else rest

-- The numbers n + 1, n + 2 and so on.
abbrev pub NumberedFrom : ℕ → List ℕ → Type 0
NumberedFrom n [] = Unit
NumberedFrom n (k ∷ ks) = (k ≡ suc n) × NumberedFrom (suc n) ks

abbrev largest : List ℕ → ℕ
largest [] = 0
largest (k ∷ ks) = max k (largest ks)

last_sequence-eq-largest :
    (id : ℕ) (es : List OrderEvent) → last_sequence id es ≡ largest (sequences id es)
unfolding last_sequence
last_sequence-eq-largest id [] = refl
last_sequence-eq-largest id (e ∷ es) = ground (arith, last_sequence-eq-largest id es)

NumberedFrom-largest :
    (n : ℕ) (ks : List ℕ) → NumberedFrom n ks → max n (largest ks) ≡ n + length ks
NumberedFrom-largest n [] h = omega arith
NumberedFrom-largest n (k ∷ ks) h = omega (arith, NumberedFrom-largest (suc n) ks h.1)

NumberedFrom-append :
    (n : ℕ) (ks : List ℕ) (k : ℕ)
    → NumberedFrom n ks
    → k ≡ suc (n + length ks)
    → NumberedFrom n (ks ++ k ∷ [])
NumberedFrom-append n [] k h e = (omega arith, tt)
NumberedFrom-append n (j ∷ ks) k h e = (h.0, NumberedFrom-append (suc n) ks k h.1 (omega arith))

sequences-append :
    (id : ℕ) (es : List OrderEvent) (e : OrderEvent)
    → sequences id (es ++ e ∷ [])
      ≡ sequences id es ++ (if e.order_id == id then e.sequence_number ∷ [] else [])
sequences-append id [] e = ground arith
sequences-append id (x ∷ es) e = ground (arith, sequences-append id es e)

transition-events :
    (events : List OrderEvent) (order : Order) (target : OrderStatus) (actor : ActorType)
    (payload : Payload) (fixture : Bool) {order' : Order} {events' : List OrderEvent}
    → transition events order target actor payload fixture ≡ ok (order', events')
    → events' ≡ events ++ transition_event events order target actor payload ∷ []
unfolding transition
transition-events events order target actor payload fixture h = ground arith

module _ (events : List OrderEvent) (order : Order) (target : OrderStatus) (actor : ActorType)
    (payload : Payload) where
  sequences-append_self :
      sequences order.id (events ++ transition_event events order target actor payload ∷ [])
      ≡ sequences order.id events ++ next_event_sequence order.id events ∷ []
  unfolding transition_event
  sequences-append_self =
      ground (
        arith,
        sequences-append order.id events (transition_event events order target actor payload),
      )

sequences-append_other :
    (id : ℕ) (events : List OrderEvent) (order : Order) (target : OrderStatus) (actor : ActorType)
    (payload : Payload)
    → (id ≡ order.id → ⊥)
    → sequences id (events ++ transition_event events order target actor payload ∷ [])
      ≡ sequences id events
unfolding transition_event
sequences-append_other id events order target actor payload other = ground (
  arith,
  append-nil (sequences id events),
  sequences-append id events (transition_event events order target actor payload),
)

-- A successful transition keeps the numbering of the order's own events without gap or repetition,
-- makes them one more, and leaves those of every other order as they were.
pub transition-NumberedFrom :
    (events : List OrderEvent) (order : Order) (target : OrderStatus) (actor : ActorType)
    (payload : Payload) (fixture : Bool) {order' : Order} {events' : List OrderEvent}
    → transition events order target actor payload fixture ≡ ok (order', events')
    → NumberedFrom 0 (sequences order.id events)
    → NumberedFrom 0 (sequences order.id events')
      × (length (sequences order.id events') ≡ suc (length (sequences order.id events)))
      × ((id : ℕ) → (id ≡ order.id → ⊥) → sequences id events' ≡ sequences id events)
transition-NumberedFrom events order target actor payload fixture h numbered =
    let logged = transition-events events order target actor payload fixture h in
    let event = transition_event events order target actor payload in
    let own = sequences-append_self events order target actor payload in
    let size = NumberedFrom-largest 0 (sequences order.id events) numbered in
    (
      rw (logged, own)
          (NumberedFrom-append 0 (sequences order.id events) (next_event_sequence order.id events)
            numbered
            (unfold next_event_sequence in
              omega (arith, size, last_sequence-eq-largest order.id events))),
      rw (logged, own)
          (omega (
            arith,
            length-append (sequences order.id events) (next_event_sequence order.id events ∷ []),
          )),
      λ id other. rw logged (sequences-append_other id events order target actor payload other),
    )
