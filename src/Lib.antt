-- ===== src/Lib.antt =====
-- A verification library for Order-agent, a service that takes restaurant orders in a conversation
-- (backend/app). A customer builds a cart, confirms it, and the confirmed order moves along a
-- lifecycle; a safety policy reads the signals of every utterance and decides whether the draft may
-- go on, wants a confirmation, is handed to a (simulated) human or is refused; a handoff case holds
-- the order until it is resolved or cancelled.
--
-- The parts and their files, with paths from the repository's root:
--   Enums, Errors, Records, State: the types that the parts share. backend/app/domain/enums.py and
--     errors.py, the rows of backend/app/db/models.py, `SessionState` and `OrderItem` of
--     backend/app/state/session_state.py, `MenuItem` of backend/app/models/schemas.py. Fields that
--     no modelled operation reads or writes are left out.
--   Lifecycle: backend/app/services/order_lifecycle_service.py. `validate` and `transition` take the
--     order and the events of the unit of work, and return them changed, or an error.
--   Cart: backend/app/services/order_service.py. An operation takes the lines of the order and
--     returns new ones, as the source's operations copy them (Cart/Add, Remove, Update, Replace,
--     Totals, with the helpers in Cart/Lines).
--   Modifiers: backend/app/services/modifier_validation_service.py, over the groups that the menu
--     repository returns for a dish.
--   Safety: `ConfidenceMetadata` of backend/app/domain/safety.py and the settings of
--     backend/app/services/safety_policy_config.py (Safety/Confidence), the signals (Safety/Signals),
--     `evaluate` of backend/app/services/safety_decision_service.py (Safety/Decision), and the
--     counters of backend/app/services/safety_audit_service.py (Safety/Counters).
--   Handoff: backend/app/services/handoff_service.py. `_apply_transition` is Handoff/Case,
--     `_create_or_reuse` is Handoff/Request, and `_apply_cancellation_effects` with
--     `_current_cancellation_result` is Handoff/Cancel. The methods around them are Handoff/Service.
--   Persist: `confirm_order` of backend/app/services/order_persistence_service.py. The request is
--     Persist/Request, the rows and the queries of backend/app/repositories/order_repository.py are
--     Persist/Database, what the fingerprints are made of is Persist/Fingerprint, the order that is
--     written is Persist/Draft, the transaction is Persist/Confirm, `confirm_order` around it is
--     Persist/Service, and `invalidate_confirmation` is Persist/Invalidate.
--   Confirmation: `ConfirmationAgent` of backend/app/agents/confirmation_agent.py, with the pending
--     actions that it carries out, and `_apply_patch` of backend/app/agents/orchestrator.py.
--   Sessions: `PersistentSessionStore` of backend/app/state/session_store.py with the queries of
--     backend/app/repositories/session_repository.py (Sessions/Store), and what
--     backend/app/state/session_persistence.py keeps beside a session's JSON (Sessions/Contact). Json
--     has JSON values and `_redact_nested_contact` (Json/Redaction).
--   Entry: `_handle_safety_preflight` of backend/app/services/text_entry_service.py (Entry/Preflight)
--     and the functions that write its outcome into the session (Entry). Locks: `SessionLockManager`
--     of the same file.
--   Menu: the look-ups of backend/app/services/menu_service.py, of a dish by its name (Menu) and of
--     all dishes that a text names (Menu/Chosen).
--   Fallback: what may come of an answer of a language model. The schemas and `parse_llm_fallback_payload`
--     of backend/app/services/llm_fallback_schemas.py and llm_fallback_validation.py are Fallback, the
--     evidence in the user's words is Fallback/Evidence, `convert_llm_to_interpretation` is
--     Fallback/Convert, `build_directed_clarification` is Fallback/Clarify, and
--     `_merge_llm_interpretation` of backend/app/agents/orchestrator.py is Fallback/Merge.
--   Publishing: the menu versions of backend/app/services/menu_management_service.py, with the
--     statements of backend/app/repositories/menu_repository.py that publish one.
--   Hours: `is_branch_open` of backend/app/services/opening_hours_service.py.
--   Prelude: names and lemmas on numbers, lists and texts that the parts share. Tests: runs on
--     concrete orders and cases.
--
-- How they interact: the handoff service puts an order on hold (`safety_hold`), which is what the
-- lifecycle's `transition` reads; the policy's decision is what a handoff is requested with; the
-- session keeps the case's status and its blocked actions; a confirmation reads the cart's lines, the
-- modifiers and the hold, and moves the order along the lifecycle. The preflight of a message calls
-- the policy, the handoff service and the session store; it takes them as an interface (`Services`),
-- and the theorem about it names what it needs of them: that the audit decides by the policy, as
-- `evaluate_and_record` of Safety/Counters does, and that the store keeps a session that it saves, as
-- `set` of Sessions/Store does. The fallback looks dishes up in the menu.
--
-- Choices of the model. Quantities and prices are integers, versions and row ids natural numbers;
-- Python's integers have no width, so nothing wraps around. The confidence values are floats in the
-- source and the elements of an arbitrary `Scale` here. A set of signals is a list in any order. A
-- unit of work that raises is rolled back, so an error carries no rows. The verdicts of
-- `validate_safe_payload` are a parameter (`Audit`), as is the clock. Every function is structurally
-- recursive; no fuel is used. The fingerprints of a
-- confirmation, JSON under SHA-256 in the source, are a parameter (`Digest`), as are the menu's rows
-- and the ids of new rows. Where transactions race, their effect is an argument: the version that is
-- stored when a session is saved, and the rows that another transaction left. The store's stored
-- states are those that it wrote. The calls of Python's `re` that no definition can read off, the
-- normalizer of voice transcripts, and what pydantic builds from a payload are parameters of Fallback.
-- A time of day is a number of microseconds; the change of time zone is made before.
--
-- Not modelled: the other dialogue agents and the semantic routing, which are heuristics over texts; the
-- voice and HTTP parts, the client of the language model and its prompts, which are input and output;
-- SQL and migrations; the summaries and texts for people; the multilingual analysis and the rest of
-- the text entry around the orchestrator; the in-memory session store; loading and ranking menus and
-- cloning a catalog; the look-ups of tenants; the allergens of a request, which are copied.
pub mod Prelude
pub mod Errors
pub mod Confirmation
pub mod Enums
pub mod Records
pub mod Lifecycle
pub mod State
pub mod Cart
pub mod Handoff
pub mod Safety
pub mod Modifiers
pub mod Entry
pub mod Fallback
pub mod Hours
pub mod Json
pub mod Locks
pub mod Menu
pub mod Sessions
pub mod Persist
pub mod Publishing
pub mod Tests
