-- ===== src/Cart/Add.antt =====
-- `OrderService.add_item` and `add_items`.
pub mod Units
pub mod Subtotal
use order_agent.Prelude.{Bool, ◌&&◌, String, Option, none, some, List, [], ◌∷◌, if◌then◌else◌}
use order_agent.Prelude.Int.{ℤ, pos, ◌+ℤ◌, ◌*ℤ◌}
use order_agent.Prelude.Text.{str_eq, sorted, eq_texts, eq_option}
use order_agent.State.{MenuItem, OrderItem}
use order_agent.Cart.Lines.{positive_quantity, clean_text, dedupe}

-- `minor if minor is not None else price * 100`
abbrev pub minor_or_price : Option ℤ → ℤ → ℤ
minor_or_price none price = price *ℤ pos 100
minor_or_price (some minor) price = minor

-- The keyword arguments of `add_item`, which are the entries of a spec of `add_items`.
pub record Spec : Type 0 where
  pub item : MenuItem
  pub quantity : Option ℤ
  pub options : List String
  pub unit : Option String
  pub notes : Option String
  pub spicy_level : Option String
  pub exclusions : List String
  pub source : Option String

-- The line that `add_item` appends; the arguments are cleaned already.
unfoldable pub new_line : Spec → OrderItem
new_line spec = record {
  item_id = item.id;
  name = item.name;
  price = item.price;
  unit_price_minor = some (minor_or_price item.base_price_minor item.price);
  currency = item.currency;
  menu_item_db_id = item.menu_item_db_id;
  menu_version_id = item.menu_version_id;
  quantity = positive_quantity spec.quantity;
  options = dedupe spec.options;
  spicy_level = clean_text spec.spicy_level;
  exclusions = dedupe spec.exclusions;
  notes = clean_text spec.notes;
  category = some item.category;
  unit = spec.unit;
  source = spec.source;
}
  where
    open spec use {item}

-- Whether `add_item` counts a line as the same dish, prepared the same way.
pub same_line : OrderItem → OrderItem → Bool
same_line line entry =
    str_eq entry.item_id line.item_id
    && eq_texts (sorted entry.options) (sorted line.options)
    && eq_option entry.notes line.notes
    && eq_option entry.spicy_level line.spicy_level
    && eq_texts (sorted entry.exclusions) (sorted line.exclusions)

-- The loop of `add_item`: the first same line takes the quantity, or the new line goes last.
pub add_line : OrderItem → List OrderItem → List OrderItem
add_line line [] = line ∷ []
add_line line (entry ∷ order) =
    if same_line line entry
    then record entry { quantity = entry.quantity +ℤ line.quantity } ∷ order
    else entry ∷ add_line line order

unfoldable pub add_item : List OrderItem → Spec → List OrderItem
unfolding add_line new_line same_line
add_item order spec = add_line (new_line spec) order

unfoldable pub add_items : List OrderItem → List Spec → List OrderItem
unfolding add_item
add_items order [] = order
add_items order (spec ∷ specs) = add_items (add_item order spec) specs
