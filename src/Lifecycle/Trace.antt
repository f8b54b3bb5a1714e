-- ===== src/Lifecycle/Trace.antt =====
-- Sequences of successful transitions of one order, as `OrderLifecycleService.transition` makes
-- them, whoever calls it and with whatever arguments.
use order_agent.Prelude.{ℕ, zero, suc, ◌+◌, ◌≤◌, ◌<◌, ◌≡◌, Bool, true, false, List, arith, ap, ◌∙◌}
use order_agent.Enums.{OrderStatus, ActorType}
use order_agent.Errors.{ok}
use order_agent.Records.{Order, OrderEvent, Payload}
use order_agent.Lifecycle.{allowed, blocked_by_hold, needs_fixture, transition}
use order_agent.Lifecycle.Guards.{transition_lem}

abbrev pub Logged : Type 0
Logged = Order × List OrderEvent

-- `Steps fixture n s t`: n transitions lead from `s` to `t`; with `fixture` false none of them was
-- made for a merchant fixture.
pub data Steps (fixture : Bool) : ℕ → Logged → Logged → Type 0 where
  here : {s : Logged} → Steps fixture zero s s
  next :
      {n : ℕ} {s t u : Logged}
      → Steps fixture n s t
      → (target : OrderStatus) (actor : ActorType) (payload : Payload) (used : Bool)
      → (used ≡ true → fixture ≡ true)
      → transition t.1 t.0 target actor payload used ≡ ok u
      → Steps fixture (suc n) s u

-- The length of the longest path from `draft` to a status.
abbrev pub depth : OrderStatus → ℕ
depth OrderStatus.draft = 0
depth OrderStatus.customer_confirmed = 1
depth OrderStatus.submission_started = 2
depth OrderStatus.merchant_pending = 3
depth OrderStatus.submission_failed = 3
depth OrderStatus.merchant_accepted = 4
depth OrderStatus.merchant_rejected = 4
depth OrderStatus.cancelled = 5
depth OrderStatus.completed = 5

depth-allowed : (a b : OrderStatus) → allowed a b ≡ true → depth a < depth b
unfolding allowed
depth-allowed a b h = ground arith

depth-transition :
    (s u : Logged) (target : OrderStatus) (actor : ActorType) (payload : Payload) (used : Bool)
    → transition s.1 s.0 target actor payload used ≡ ok u
    → depth s.0.status < depth u.0.status
depth-transition s u target actor payload used h =
    let facts = transition_lem s.1 s.0 target actor payload used h in
    ground (arith, depth-allowed s.0.status target facts.0, facts.1)

Steps-depth :
    {fixture : Bool} {n : ℕ} {s t : Logged}
    → Steps fixture n s t
    → depth s.0.status + n ≤ depth t.0.status
Steps-depth here = omega arith
Steps-depth (next {t = t} {u = u} r target actor payload used h e) =
    omega (arith, Steps-depth r, depth-transition t u target actor payload used e)

depth-le : (a : OrderStatus) → depth a ≤ 5
depth-le a = ground arith

-- At most five transitions of the lifecycle follow each other from `draft`, and from any other status
-- at most as many as are left to the end of the longest path. A handoff that returns the order to
-- `draft` is not a transition of the lifecycle, and the count begins anew after it.
pub Steps-bounded :
    {fixture : Bool} {n : ℕ} {s t : Logged} → Steps fixture n s t → depth s.0.status + n ≤ 5
Steps-bounded {t = t} r = omega (arith, Steps-depth r, depth-le t.0.status)

-- The statuses that need no merchant.
abbrev pub is_local : OrderStatus → Bool
is_local OrderStatus.merchant_pending = false
is_local OrderStatus.merchant_accepted = false
is_local OrderStatus.merchant_rejected = false
is_local OrderStatus.completed = false
is_local _ = true

is_local-allowed :
    (a b : OrderStatus)
    → is_local a ≡ true
    → allowed a b ≡ true
    → (needs_fixture b ≡ true → ⊥)
    → is_local b ≡ true
unfolding allowed needs_fixture
is_local-allowed a b la h n = ground arith

-- Where no transition is made for a merchant fixture, an order that starts in a local status never
-- reaches a merchant status or `completed`.
pub Steps-is_local :
    {n : ℕ} {s t : Logged}
    → Steps false n s t
    → is_local s.0.status ≡ true
    → is_local t.0.status ≡ true
Steps-is_local here l = l
Steps-is_local (next {t = t} r target actor payload used h e) l =
    let facts = transition_lem t.1 t.0 target actor payload used e in
    rw (ap (λ (o : Order). o.status) facts.1) (
      is_local-allowed t.0.status target (Steps-is_local r l) facts.0
        (λ need. cc (h (facts.3 need).0)))

-- The statuses that a held draft can have.
abbrev pub is_unsubmitted : OrderStatus → Bool
is_unsubmitted OrderStatus.draft = true
is_unsubmitted OrderStatus.customer_confirmed = true
is_unsubmitted OrderStatus.cancelled = true
is_unsubmitted _ = false

is_unsubmitted-allowed :
    (a b : OrderStatus)
    → is_unsubmitted a ≡ true
    → allowed a b ≡ true
    → blocked_by_hold b ≡ false
    → is_unsubmitted b ≡ true
unfolding allowed blocked_by_hold
is_unsubmitted-allowed a b la h n = ground arith

abbrev IsHeld : Logged → Type 0
IsHeld s = (s.0.safety_hold ≡ true) × (is_unsubmitted s.0.status ≡ true)

step-IsHeld :
    (s u : Logged) (target : OrderStatus) (actor : ActorType) (payload : Payload) (used : Bool)
    → transition s.1 s.0 target actor payload used ≡ ok u
    → IsHeld s
    → IsHeld u
step-IsHeld s u target actor payload used e h =
    let facts = transition_lem s.1 s.0 target actor payload used e in
    let moved = is_unsubmitted-allowed s.0.status target h.1 facts.0 (facts.2 h.0) in
    (
      ap (λ (o : Order). o.safety_hold) facts.1 ∙ h.0,
      ap (λ (o : Order). is_unsubmitted o.status) facts.1 ∙ moved,
    )

-- An order on safety hold that was not yet submitted stays on hold and is never submitted, whatever
-- transitions are made, merchant fixtures included.
pub Steps-held :
    {fixture : Bool} {n : ℕ} {s t : Logged}
    → Steps fixture n s t
    → s.0.safety_hold ≡ true
    → is_unsubmitted s.0.status ≡ true
    → (t.0.safety_hold ≡ true) × (is_unsubmitted t.0.status ≡ true)
Steps-held here held l = (held, l)
Steps-held (next {t = t} {u = u} r target actor payload used h e) held l =
    step-IsHeld t u target actor payload used e (Steps-held r held l)
