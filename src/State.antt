-- ===== src/State.antt =====
-- The in-memory session of backend/app/state/session_state.py and the menu item of
-- backend/app/models/schemas.py. Python's ints are ℤ where the code can make them negative
-- (quantities and prices), and ℕ for versions and row ids. Of a recommendation its name is kept. The
-- fields that no modelled operation reads or writes (preferences, viewed categories, questions, the
-- detected locales) are left out.
use order_agent.Prelude.{ℕ, Bool, true, false, String, Option, none, List, []}
use order_agent.Prelude.Int.{ℤ}
use order_agent.Json.{Json}
use order_agent.Enums.{OrderStatus, MerchantStatus, DecisionClass, ReasonCode, HandoffStatus}

pub record MenuItem : Type 0 where
  pub id : String
  pub name : String
  pub category : String
  pub price : ℤ
  pub base_price_minor : Option ℤ
  pub currency : String
  pub menu_item_db_id : Option ℕ
  pub menu_version_id : Option ℕ
  pub available : Bool
  pub options : List String
  pub aliases : List String

pub record OrderItem : Type 0 where
  pub item_id : String
  pub name : String
  pub price : ℤ
  pub unit_price_minor : Option ℤ
  pub currency : String
  pub menu_item_db_id : Option ℕ
  pub menu_version_id : Option ℕ
  pub quantity : ℤ
  pub options : List String
  pub spicy_level : Option String
  pub exclusions : List String
  pub notes : Option String
  pub category : Option String
  pub unit : Option String
  pub source : Option String

-- `DeliveryAddressCandidate`; its confidence, a float, is kept by its printed form.
pub record AddressCandidate : Type 0 where
  pub raw : String
  pub normalized : String
  pub source : String
  pub confidence : String
  pub requires_confirmation : Bool

pub record SessionState : Type 0 where
  pub restaurant_code : Option String
  pub branch_code : Option String
  pub persistence_version : ℕ
  pub is_synthetic : Bool
  pub draft_version : ℕ
  pub lifecycle_status : OrderStatus
  pub merchant_status : MerchantStatus
  pub confirmation_valid : Bool
  pub stage : String
  pub current_order : List OrderItem
  pub fulfillment_type : String
  pub official_delivery_address : Option String
  pub phone : Option String
  pub submitted : Bool
  pub submitted_order_id : Option String
  pub safety_classification : DecisionClass
  pub safety_reason_code : Option ReasonCode
  pub safety_decision_id : Option String
  pub handoff_public_id : Option String
  pub handoff_status : HandoffStatus
  pub safety_blocked_actions : List String
  pub confirmed_fields : List String
  pub unconfirmed_fields : List String
  pub last_recommendations : List String
  pub last_mentioned_item : Option String
  pub pending_delivery_address_candidate : Option AddressCandidate
  pub pending_action : Option Json
  pub last_mutation_snapshot : Option Json
  pub last_mutation_confirmed : Bool
  pub last_address_mention : Option String
  pub response_locale : String

-- `SessionState()`
abbrev pub new_state : SessionState
new_state = record {
  restaurant_code = none;
  branch_code = none;
  persistence_version = 0;
  is_synthetic = true;
  draft_version = 1;
  lifecycle_status = OrderStatus.draft;
  merchant_status = MerchantStatus.not_integrated;
  confirmation_valid = false;
  stage = "ordering";
  current_order = [];
  fulfillment_type = "delivery";
  official_delivery_address = none;
  phone = none;
  submitted = false;
  submitted_order_id = none;
  safety_classification = DecisionClass.auto_draft;
  safety_reason_code = none;
  safety_decision_id = none;
  handoff_public_id = none;
  handoff_status = HandoffStatus.not_required;
  safety_blocked_actions = [];
  confirmed_fields = [];
  unconfirmed_fields = [];
  last_recommendations = [];
  last_mentioned_item = none;
  pending_delivery_address_candidate = none;
  pending_action = none;
  last_mutation_snapshot = none;
  last_mutation_confirmed = false;
  last_address_mention = none;
  response_locale = "zh-CN";
}
