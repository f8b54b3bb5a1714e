-- ===== src/Safety/Counters.antt =====
-- The counters of a session: `_advance_counters` of backend/app/services/safety_audit_service.py.
-- The service loads or creates the row, advances it, and evaluates the policy with it.
use order_agent.Prelude.{ℕ, ◌+◌, Bool, true, false, Option, none, some, if◌then◌else◌}
use order_agent.Prelude.{All, length, ap, List, ◌∷◌, ◌++◌, refl, ◌≡◌, ◌∙◌, ◌≤◌, [], arith}
use order_agent.Enums.{DecisionClass, HandoffReasonCode}
use order_agent.Errors.{Result, ok}
use order_agent.Safety.Confidence.{Scale, Settings, effective_overall}
use order_agent.Safety.Signals.{
  refusal_reasons, handoff_reasons, has_misunderstanding, has_understood, has_correction,
  has_failed, has_succeeded,
}
use order_agent.Safety.Decision.{
  SafetyCounters, Context, SafetyDecision, evaluate, exceeds, is_nil, all_handoff_reasons,
}
use order_agent.Safety.Decision.Classes.{evaluate_total}

-- Counted up, reset, or left.
abbrev pub advanced : Bool → Bool → ℕ → ℕ
advanced up reset n = if up then n + 1 else if reset then 0 else n

-- A row that does not exist yet counts from 0.
abbrev pub no_counters : SafetyCounters
no_counters = record {
  consecutive_low_confidence = 0;
  consecutive_misunderstandings = 0;
  consecutive_corrections = 0;
  confirmation_failures = 0;
}

abbrev pub or_new : Option SafetyCounters → SafetyCounters
or_new none = no_counters
or_new (some counters) = counters

pub is_nil-append :
    (rs : List HandoffReasonCode) (r : HandoffReasonCode) → is_nil (rs ++ r ∷ []) ≡ false
is_nil-append [] r = refl
is_nil-append (x ∷ rs) r = refl

module _ (scale : Scale) where
  open scale use {Score, below}

  abbrev low_confidence : Settings Score → Bool → Option Score → ℕ → ℕ
  low_confidence s deterministic none n = if deterministic then 0 else n
  low_confidence s deterministic (some v) n = if below v s.confirm_threshold then n + 1 else 0

  -- `_advance_counters`
  unfoldable pub advance_counters : Settings Score → Context Score → SafetyCounters → SafetyCounters
  unfolding effective_overall
  advance_counters s c n = record {
    consecutive_low_confidence =
        low_confidence s c.deterministic_input (effective_overall scale c.confidence)
          n.consecutive_low_confidence;
    consecutive_misunderstandings =
        advanced (has_misunderstanding c.signals) (has_understood c.signals)
          n.consecutive_misunderstandings;
    consecutive_corrections =
        advanced (has_correction c.signals) (has_understood c.signals) n.consecutive_corrections;
    confirmation_failures =
        advanced (has_failed c.signals) (has_succeeded c.signals) n.confirmation_failures;
  }

  -- The counters and the decision of `evaluate_and_record`, which puts the advanced counters in the
  -- place of those of the context.
  unfoldable pub evaluate_and_record :
      Settings Score
      → Context Score
      → Option SafetyCounters
      → SafetyCounters × Result (SafetyDecision Score)
  unfolding advance_counters evaluate
  evaluate_and_record s c stored =
      let counters = advance_counters s c (or_new stored) in
      (counters, evaluate scale s (record c { counters = counters }))

  is_nil-all_handoff_reasons :
      (s : Settings Score) (c : Context Score)
      → exceeds scale s c.counters ≡ true
      → is_nil (all_handoff_reasons scale s c) ≡ false
  unfolding all_handoff_reasons
  is_nil-all_handoff_reasons s c h =
      rw h (is_nil-append (handoff_reasons c.signals) HandoffReasonCode.repeated_misunderstanding)

  exceeds_misunderstandings :
      (s : Settings Score) (n : SafetyCounters)
      → s.max_consecutive_misunderstandings ≤ n.consecutive_misunderstandings
      → exceeds scale s n ≡ true
  unfolding exceeds
  exceeds_misunderstandings s n h = ground arith

  -- The counters after the messages of a session, the first of them first.
  unfoldable pub counters_after :
      Settings Score → List (Context Score) → SafetyCounters → SafetyCounters
  unfolding evaluate_and_record
  counters_after s [] n = n
  counters_after s (c ∷ cs) n = counters_after s cs (evaluate_and_record s c (some n)).0

  abbrev pub AreMisunderstood : List (Context Score) → Type 0
  AreMisunderstood = All (λ c. has_misunderstanding c.signals ≡ true)

  counted :
      (s : Settings Score) (c : Context Score) (n : SafetyCounters)
      → has_misunderstanding c.signals ≡ true
      → (advance_counters s c n).consecutive_misunderstandings ≡ n.consecutive_misunderstandings + 1
  unfolding advance_counters
  counted s c n signalled = rw signalled

  counted_all :
      (s : Settings Score) (cs : List (Context Score)) (n : SafetyCounters)
      → AreMisunderstood cs
      → (counters_after s cs n).consecutive_misunderstandings
        ≡ n.consecutive_misunderstandings + length cs
  unfolding counters_after evaluate_and_record
  counted_all s [] n h = omega arith
  counted_all s (c ∷ cs) n h =
      omega (arith, counted_all s cs (advance_counters s c n) h.1, counted s c n h.0)

  understood :
      (s : Settings Score) (c : Context Score) (n : SafetyCounters)
      → has_misunderstanding c.signals ≡ false
      → has_understood c.signals ≡ true
      → (advance_counters s c n).consecutive_misunderstandings ≡ 0
  unfolding advance_counters
  understood s c n signalled again = rw (signalled, again)

  pub repeated_misunderstanding :
      (s : Settings Score) (start : Context Score) (n : SafetyCounters) (cs : List (Context Score))
      (c : Context Score)
      → has_misunderstanding start.signals ≡ false
      → has_understood start.signals ≡ true
      → AreMisunderstood cs
      → has_misunderstanding c.signals ≡ true
      → refusal_reasons c.signals ≡ []
      → s.max_consecutive_misunderstandings ≤ length cs + 1
      → let before = counters_after s (start ∷ cs) n in
        let (counters, result) = evaluate_and_record s c (some before) in
        (before.consecutive_misunderstandings ≡ length cs)
        × (counters.consecutive_misunderstandings ≡ length cs + 1)
        × ((d : SafetyDecision Score) × (result ≡ ok d)
            × (d.classification ≡ DecisionClass.handoff))
  unfolding counters_after evaluate_and_record
  repeated_misunderstanding s start n cs c was_missed was_clear missed signalled none_refused
        reached =
      let before = counters_after s (start ∷ cs) n in
      let counters = advance_counters s c before in
      let context : Context Score = record c { counters = counters } in
      let since : before.consecutive_misunderstandings ≡ length cs = omega (
        arith,
        counted_all s cs (advance_counters s start n) missed,
        understood s start n was_missed was_clear,
      ) in
      let now : counters.consecutive_misunderstandings ≡ length cs + 1 =
        counted s c before signalled ∙ ap (λ k. k + 1) since in
      let (d, decided, class, sound) = evaluate_total scale s context in
      (
        since,
        now,
        (
          d,
          decided,
          class
              ∙ rw (
                none_refused,
                is_nil-all_handoff_reasons s context
                    (exceeds_misunderstandings s counters (rw now reached)),
              ),
        ),
      )
