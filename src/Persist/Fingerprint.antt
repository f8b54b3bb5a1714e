-- ===== src/Persist/Fingerprint.antt =====
-- What the fingerprints of a confirmation are made of: `_draft_fingerprint` and `_fingerprint` of
-- backend/app/services/order_persistence_service.py.
use order_agent.Prelude.{ℕ, Bool, String, Option, List, map}
use order_agent.Prelude.Int.{ℤ}
use order_agent.Prelude.Text.{sorted}
use order_agent.State.{OrderItem, SessionState}
use order_agent.Cart.Totals.{is_given}
use order_agent.Persist.Request.{Request}

-- What `_draft_fingerprint` reads of a line and of the session.
pub record DraftItem : Type 0 where
  pub item_id : String
  pub quantity : ℤ
  pub options : List String
  pub spicy_level : Option String
  pub exclusions : List String
  pub notes : Option String

pub record DraftView : Type 0 where
  pub restaurant : Option String
  pub branch : Option String
  pub draft_version : ℕ
  pub fulfillment_type : String
  pub delivery_address : Option String
  pub phone_present : Bool
  pub items : List DraftItem

unfoldable pub draft_view : SessionState → DraftView
unfolding sorted
draft_view state = record {
  restaurant = state.restaurant_code;
  branch = state.branch_code;
  draft_version = state.draft_version;
  fulfillment_type = state.fulfillment_type;
  delivery_address = state.official_delivery_address;
  phone_present = is_given state.phone;
  items =
      map
        (λ (item : OrderItem). record {
          item_id = item.item_id;
          quantity = item.quantity;
          options = sorted item.options;
          spicy_level = item.spicy_level;
          exclusions = sorted item.exclusions;
          notes = item.notes;
        })
        state.current_order;
}

-- `_fingerprint` of a draft, and of a request with its draft version.
pub record Digest : Type 0 where
  pub draft : DraftView → String
  pub request : ℕ → Request → String
