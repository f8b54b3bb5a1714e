-- ===== src/Persist/Request/Price.antt =====
-- The prices of a request come from the menu alone.
use order_agent.Prelude.{◌≡◌, refl, String, Option, List, [], ◌∷◌, map}
use order_agent.Prelude.Int.{ℤ}
use order_agent.State.{OrderItem, SessionState}
use order_agent.Persist.Request.{
  Tenant, MenuRow, Zone, request_item, request_items, authoritative_request,
}

-- A draft line with other prices and another name.
abbrev pub reprice :
    (OrderItem → ℤ) → (OrderItem → Option ℤ) → (OrderItem → String) → OrderItem → OrderItem
reprice price minor name entry = record entry {
  price = price entry;
  unit_price_minor = minor entry;
  name = name entry;
}

module _ (price : OrderItem → ℤ) (minor : OrderItem → Option ℤ) (name : OrderItem → String)
    (menu : String → Option MenuRow) where
  request_item-reprice :
      (entry : OrderItem)
      → request_item menu (reprice price minor name entry) ≡ request_item menu entry
  unfolding request_item
  request_item-reprice entry = refl

  request_items-reprice :
      (order : List OrderItem)
      → request_items menu (map (reprice price minor name) order) ≡ request_items menu order
  unfolding request_items
  request_items-reprice [] = refl
  request_items-reprice (entry ∷ order) = rw (request_item-reprice, request_items-reprice order)

-- Whatever prices and names the lines of a draft carry, its request, with every price and total, or
-- the error that it ends in, is the same.
pub authoritative_request-reprice :
    (tenant : Tenant) (menu : String → Option MenuRow) (found : Option Zone) (state : SessionState)
    (price : OrderItem → ℤ) (minor : OrderItem → Option ℤ) (name : OrderItem → String)
    → authoritative_request tenant menu found
        (record state { current_order = map (reprice price minor name) state.current_order })
      ≡ authoritative_request tenant menu found state
unfolding authoritative_request
authoritative_request-reprice tenant menu found state price minor name =
    rw (request_items-reprice price minor name menu state.current_order)
