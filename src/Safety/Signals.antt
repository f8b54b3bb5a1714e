-- ===== src/Safety/Signals.antt =====
-- The signals that the policy reads. The source's signals are texts; those that it looks up in
-- HANDOFF_SIGNAL_TO_REASON, REFUSAL_SIGNAL_TO_REASON and CONFIRMATION_SIGNALS, whose keys are
-- disjoint, are constructors, and any other is `other`. A set of signals is a list of its members in
-- the order in which Python happens to visit them.
use order_agent.Prelude.{Bool, true, false, String, List, [], ◌∷◌, ◌==◌, any}
use order_agent.Enums.{HandoffReasonCode, RefusalReasonCode, reason_rank, refusal_rank}

pub data ConfirmationSignal : Type 0 where
  final_order address phone ambiguous_item_candidates ambiguous_quantity_candidates
        large_modification delete_all_items important_note inferred_value delivery_fee
        order_version_changed :
      ConfirmationSignal

pub data Signal : Type 0 where
  handoff_signal : HandoffReasonCode → Signal
  refusal_signal : RefusalReasonCode → Signal
  confirmation_signal : ConfirmationSignal → Signal
  misunderstanding understood correction confirmation_failed confirmation_succeeded : Signal
  other : String → Signal

-- CONFIRMATION_SIGNALS
unfoldable pub confirmation_field : ConfirmationSignal → String
confirmation_field final_order = "final_order"
confirmation_field address = "address"
confirmation_field phone = "phone"
confirmation_field ambiguous_item_candidates = "item"
confirmation_field ambiguous_quantity_candidates = "quantity"
confirmation_field large_modification = "order_changes"
confirmation_field delete_all_items = "empty_order"
confirmation_field important_note = "important_notes"
confirmation_field inferred_value = "inferred_values"
confirmation_field delivery_fee = "delivery_fee"
confirmation_field order_version_changed = "order_version"

-- `[HANDOFF_SIGNAL_TO_REASON[signal] for signal in signals if …]`
unfoldable pub handoff_reasons : List Signal → List HandoffReasonCode
handoff_reasons [] = []
handoff_reasons (handoff_signal r ∷ ss) = r ∷ handoff_reasons ss
handoff_reasons (_ ∷ ss) = handoff_reasons ss

unfoldable pub refusal_reasons : List Signal → List RefusalReasonCode
refusal_reasons [] = []
refusal_reasons (refusal_signal r ∷ ss) = r ∷ refusal_reasons ss
refusal_reasons (_ ∷ ss) = refusal_reasons ss

unfoldable pub confirmation_fields : List Signal → List String
unfolding confirmation_field
confirmation_fields [] = []
confirmation_fields (confirmation_signal c ∷ ss) = confirmation_field c ∷ confirmation_fields ss
confirmation_fields (_ ∷ ss) = confirmation_fields ss

abbrev is_handoff : HandoffReasonCode → Signal → Bool
is_handoff r (handoff_signal s) = reason_rank s == reason_rank r
is_handoff r _ = false

abbrev is_refusal : RefusalReasonCode → Signal → Bool
is_refusal r (refusal_signal s) = refusal_rank s == refusal_rank r
is_refusal r _ = false

-- `signal in signals` for a reason's signal
abbrev pub has_handoff : HandoffReasonCode → List Signal → Bool
has_handoff r = any (is_handoff r)

abbrev pub has_refusal : RefusalReasonCode → List Signal → Bool
has_refusal r = any (is_refusal r)

abbrev is_final_order : Signal → Bool
is_final_order (confirmation_signal final_order) = true
is_final_order _ = false

abbrev pub has_final_order : List Signal → Bool
has_final_order = any is_final_order

abbrev is_misunderstanding : Signal → Bool
is_misunderstanding misunderstanding = true
is_misunderstanding _ = false

abbrev is_understood : Signal → Bool
is_understood understood = true
is_understood _ = false

abbrev is_correction : Signal → Bool
is_correction correction = true
is_correction _ = false

abbrev is_failed : Signal → Bool
is_failed confirmation_failed = true
is_failed _ = false

abbrev is_succeeded : Signal → Bool
is_succeeded confirmation_succeeded = true
is_succeeded _ = false

abbrev pub has_misunderstanding : List Signal → Bool
has_misunderstanding = any is_misunderstanding

abbrev pub has_understood : List Signal → Bool
has_understood = any is_understood

abbrev pub has_correction : List Signal → Bool
has_correction = any is_correction

abbrev pub has_failed : List Signal → Bool
has_failed = any is_failed

abbrev pub has_succeeded : List Signal → Bool
has_succeeded = any is_succeeded
