-- ===== src/Persist/Request.antt =====
-- `_authoritative_request`: what a draft costs by the published menu. The menu is a function from
-- codes to rows, as `menus.get_item_by_code` and `modifier_configuration` answer for the branch.
pub mod Price
use order_agent.Prelude.{
  ℕ, Bool, true, false, not, ◌&&◌, String, Option, none, some, List, [], ◌∷◌, ◌++◌, map,
  if◌then◌else◌,
}
use order_agent.Prelude.Int.{ℤ, pos, ◌+ℤ◌, ◌*ℤ◌}
use order_agent.Prelude.Text.{str_eq}
use order_agent.State.{OrderItem, SessionState}
use order_agent.Errors.{Result, ok, err, ◌>>=◌, ◌>>◌, raise_if, item_unavailable, domain_error}
use order_agent.Cart.Totals.{is_given}
use order_agent.Modifiers.{ModifierGroup, ModifierSnapshot, by_name, validate}

-- `TenantRecord`
pub record Tenant : Type 0 where
  pub restaurant_id : ℕ
  pub restaurant_code : String
  pub branch_id : ℕ
  pub branch_code : String
  pub currency : String
  pub is_simulation : Bool

-- `MenuItemRecord`, with the modifier groups of the dish.
pub record MenuRow : Type 0 where
  pub id : ℕ
  pub menu_version_id : ℕ
  pub code : String
  pub name : String
  pub base_price_minor : ℤ
  pub currency : String
  pub active : Bool
  pub available : Bool
  pub groups : List ModifierGroup

pub record Zone : Type 0 where
  pub id : ℕ
  pub fee_minor : ℤ

-- An entry of `modifier_snapshot`.
pub data Snapshot : Type 0 where
  modifier : ModifierSnapshot → Snapshot
  spicy_level : String → Snapshot
  exclusions : List String → Snapshot
  synthetic_note : Snapshot

-- `modifier["priceDeltaMinor"]`
abbrev price_delta : Snapshot → ℤ
price_delta (modifier m) = m.price_delta_minor
price_delta _ = pos 0

price_deltas : List Snapshot → ℤ
price_deltas [] = pos 0
price_deltas (s ∷ ss) = price_delta s +ℤ price_deltas ss

pub record RequestItem : Type 0 where
  pub menu_item_id : ℕ
  pub menu_version_id : ℕ
  pub code : String
  pub name : String
  pub unit_price_minor : ℤ
  pub quantity : ℤ
  pub modifier_snapshot : List Snapshot

pub record Request : Type 0 where
  pub draft_version : ℕ
  pub currency : String
  pub fulfillment_type : String
  pub delivery_zone_id : Option ℕ
  pub delivery_fee_minor : ℤ
  pub subtotal_minor : ℤ
  pub total_minor : ℤ
  pub items : List RequestItem

-- What the line adds to the snapshots of its modifiers.
abbrev line_snapshots : OrderItem → List Snapshot
line_snapshots entry =
    elim entry.spicy_level [
      | none ↦ []
      | some level ↦ if is_given (some level) then spicy_level level ∷ [] else []
    ]
    ++ (elim entry.exclusions [ [] ↦ [] | e ∷ es ↦ exclusions (e ∷ es) ∷ [] ]
        ++ (if is_given entry.notes then synthetic_note ∷ [] else []))

-- The item of a line of the draft, with its row's currency.
request_item : (String → Option MenuRow) → OrderItem → Result (String × RequestItem)
unfolding price_deltas
request_item menu entry = elim (menu entry.item_id) [
  | none ↦ err (item_unavailable false)
  | some row ↦ do
    raise_if (not row.active) (item_unavailable false)
    raise_if (not row.available) (item_unavailable true)
    modifiers ← validate row.groups (map by_name entry.options)
    let snapshots = map modifier modifiers ++ line_snapshots entry
    ok (
      row.currency,
      record {
        menu_item_id = row.id;
        menu_version_id = row.menu_version_id;
        code = row.code;
        name = row.name;
        unit_price_minor = row.base_price_minor +ℤ price_deltas snapshots;
        quantity = entry.quantity;
        modifier_snapshot = snapshots;
      },
    )
]

unfoldable pub request_items :
    (String → Option MenuRow) → List OrderItem → Result (List (String × RequestItem))
unfolding request_item
request_items menu [] = ok []
request_items menu (entry ∷ order) = do
  item ← request_item menu entry
  items ← request_items menu order
  ok (item ∷ items)

-- Whether every currency is the tenant's.
all_in : String → List (String × RequestItem) → Bool
all_in currency [] = true
all_in currency (item ∷ items) = str_eq item.0 currency && all_in currency items

line_totals : List RequestItem → ℤ
line_totals [] = pos 0
line_totals (item ∷ items) = item.unit_price_minor *ℤ item.quantity +ℤ line_totals items

abbrev is_none : List (String × RequestItem) → Bool
is_none [] = true
is_none _ = false

-- The zone of a delivery; `found` is what `operations.get_zone` answers.
abbrev delivery_zone : SessionState → Option Zone → Result (Option Zone)
delivery_zone state found =
    if str_eq state.fulfillment_type "delivery"
    then elim found [
      | none ↦ err (domain_error "DELIVERY_ZONE_NOT_FOUND")
      | some zone ↦ ok (some zone)
    ]
    else ok none

abbrev zone_fee : Option Zone → ℤ
zone_fee none = pos 0
zone_fee (some zone) = zone.fee_minor

abbrev zone_id : Option Zone → Option ℕ
zone_id none = none
zone_id (some zone) = some zone.id

unfoldable pub authoritative_request :
    Tenant → (String → Option MenuRow) → Option Zone → SessionState → Result Request
unfolding request_items all_in line_totals
authoritative_request tenant menu found state = do
  items ← request_items menu state.current_order
  raise_if (is_none items) (domain_error "EMPTY_ORDER")
  raise_if (not (all_in tenant.currency items)) (domain_error "CURRENCY_MISMATCH")
  zone ← delivery_zone state found
  let subtotal = line_totals (map (λ (i : String × RequestItem). i.1) items)
  ok (record {
    draft_version = state.draft_version;
    currency = tenant.currency;
    fulfillment_type = state.fulfillment_type;
    delivery_zone_id = zone_id zone;
    delivery_fee_minor = zone_fee zone;
    subtotal_minor = subtotal;
    total_minor = subtotal +ℤ zone_fee zone;
    items = map (λ (i : String × RequestItem). i.1) items;
  })
