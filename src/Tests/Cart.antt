-- ===== src/Tests/Cart.antt =====
-- A cart with two dishes, changed by each operation.
use order_agent.Prelude.{eq_iff, ◌≡◌, refl, true, false, none, some, List, [], ◌∷◌, arith, All}
use order_agent.Prelude.Int.{pos, negsuc, ◌+ℤ◌, ◌*ℤ◌}
use order_agent.Prelude.Text.{sorted}
use order_agent.State.{MenuItem, OrderItem, SessionState, new_state}
use order_agent.Cart.Lines.{positive_quantity, clean_text, dedupe, IsPositive}
use order_agent.Cart.Add.{Spec, new_line, add_item, add_items}
use order_agent.Cart.Add.Units.{units}
use order_agent.Cart.Add.Subtotal.{subtotal_minor-add_item}
use order_agent.Cart.Update.{ModifierChange, update_notes, adjust_quantity}
use order_agent.Cart.Replace.{replace_item, replacement}
use order_agent.Cart.Replace.Target.{replace_item_by_name}
use order_agent.Cart.Totals.{subtotal_minor, validate_before_submit}
use order_agent.Cart.Totals.Submission.{IsComplete, validate_before_submit_iff}
use order_agent.Cart.Positive.{Edit, edits, edits-IsPositive}

abbrev menu_item : MenuItem
menu_item = record {
  id = "noodle";
  name = "牛肉面";
  category = "面";
  price = pos 26;
  base_price_minor = some (pos 2600);
  currency = "HKD";
  menu_item_db_id = some 11;
  menu_version_id = some 2;
  available = true;
  options = "少辣" ∷ [];
  aliases = [];
}

abbrev tea : OrderItem
tea = record {
  item_id = "tea";
  name = "奶茶";
  price = pos 12;
  unit_price_minor = none;
  currency = "HKD";
  menu_item_db_id = none;
  menu_version_id = none;
  quantity = pos 1;
  options = [];
  spicy_level = none;
  exclusions = "冰" ∷ [];
  notes = none;
  category = some "饮料";
  unit = none;
  source = none;
}

abbrev spec : Spec
spec = record {
  item = menu_item;
  quantity = some (pos 2);
  options = " 少辣 " ∷ "少辣" ∷ [];
  unit = none;
  notes = some "  ";
  spicy_level = none;
  exclusions = [];
  source = none;
}

abbrev cart : List OrderItem
cart = tea ∷ []

cleans : (dedupe spec.options ≡ "少辣" ∷ []) × (clean_text spec.notes ≡ none)
unfolding dedupe clean_text
cleans = (refl, refl)

same_dish_joins : units (add_items cart (spec ∷ spec ∷ [])) ≡ pos 5
unfolding add_items ◌+ℤ◌ positive_quantity dedupe clean_text sorted
same_dish_joins = refl

notes_are_joined :
    (update_notes (record tea { notes = some "少冰" } ∷ []) "奶茶" " 热 " none).0
    ≡ record tea { notes = some "少冰；热" } ∷ []
unfolding update_notes
notes_are_joined = refl

never_below_one : (adjust_quantity cart "奶茶" (negsuc 4) (some (pos 0))).0 ≡ cart
unfolding adjust_quantity ◌+ℤ◌
never_below_one = refl

subtotal_minor-add_item_example :
    subtotal_minor (add_item cart spec)
    ≡ subtotal_minor cart +ℤ pos 2600 *ℤ positive_quantity (some (pos 2))
unfolding new_line
subtotal_minor-add_item_example =
    subtotal_minor-add_item cart spec ((λ same. absurd (ground (arith, eq_iff "tea" "noodle")), tt))

replace_item_by_name_example :
    replace_item cart "奶茶" menu_item (pos 0) [] none
    ≡ (replacement menu_item (pos 0) [] tea ∷ [], true)
replace_item_by_name_example = replace_item_by_name "奶茶" menu_item (pos 0) [] tea [] [] tt refl

abbrev change : ModifierChange
change = record {
  spicy_level = none;
  clear_spicy = true;
  exclusions = "葱" ∷ [];
  remove_exclusions = "冰" ∷ [];
  note = none;
  replace_note = false;
  clear_notes = true;
}

abbrev pub state : SessionState
state = record new_state {
  current_order = cart;
  official_delivery_address = some "1 Test Road";
  phone = some "5550000";
}

validate_before_submit_iff_example :
    (validate_before_submit state ≡ none → IsComplete state)
    × (IsComplete state → validate_before_submit state ≡ none)
validate_before_submit_iff_example = validate_before_submit_iff state

abbrev some_edits : List Edit
some_edits =
    Edit.add (spec ∷ [])
    ∷ Edit.adjust "奶茶" (negsuc 9) none
    ∷ Edit.replace "奶茶" menu_item (pos 0) [] none
    ∷ Edit.remove_index (pos 1)
    ∷ []

edits-IsPositive_example : All IsPositive (edits some_edits cart)
edits-IsPositive_example = edits-IsPositive some_edits cart (omega arith) (omega arith)
