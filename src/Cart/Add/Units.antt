-- ===== src/Cart/Add/Units.antt =====
-- How many portions an order holds, and what adding does to it.
use order_agent.Prelude.{◌≡◌, List, [], ◌∷◌, arith, All}
use order_agent.Prelude.Int.{ℤ, pos, ◌+ℤ◌, int_laws, +ℤ_parts}
use order_agent.State.{OrderItem}
use order_agent.Cart.Lines.{positive_quantity, IsPositive, positive_quantity_pos}
use order_agent.Cart.Add.{Spec, new_line, add_line, add_item, add_items}

abbrev pub units : List OrderItem → ℤ
units [] = pos 0
units (entry ∷ order) = entry.quantity +ℤ units order

units-add_line :
    (line : OrderItem) (order : List OrderItem)
    → units (add_line line order) ≡ units order +ℤ line.quantity
unfolding add_line
units-add_line line [] = omega int_laws
units-add_line line (entry ∷ order) = grind (int_laws, units-add_line line order)

-- Adding a dish makes the order larger by exactly the quantity asked for, counted as at least one,
-- whether it joins a line that is there or makes a new one.
pub units-add_item :
    (order : List OrderItem) (spec : Spec)
    → units (add_item order spec) ≡ units order +ℤ positive_quantity spec.quantity
unfolding add_item new_line
units-add_item order spec = units-add_line (new_line spec) order

-- The portions that a list of specs asks for.
abbrev pub requested_units : List Spec → ℤ
requested_units [] = pos 0
requested_units (spec ∷ specs) = positive_quantity spec.quantity +ℤ requested_units specs

-- Adding several dishes adds up what each asks for, however they share lines.
pub units-add_items :
    (order : List OrderItem) (specs : List Spec)
    → units (add_items order specs) ≡ units order +ℤ requested_units specs
unfolding add_items
units-add_items order [] = omega int_laws
units-add_items order (spec ∷ specs) =
    rw (units-add_items (add_item order spec) specs, units-add_item order spec) (omega int_laws)

add_line-IsPositive :
    (line : OrderItem) (order : List OrderItem)
    → IsPositive line
    → All IsPositive order
    → All IsPositive (add_line line order)
unfolding add_line
add_line-IsPositive line [] k h = (k, tt)
add_line-IsPositive line (entry ∷ order) k h =
    ground (arith, +ℤ_parts entry.quantity line.quantity, add_line-IsPositive line order k h.1)

pub add_items-IsPositive :
    (order : List OrderItem) (specs : List Spec)
    → All IsPositive order
    → All IsPositive (add_items order specs)
unfolding add_items add_item new_line
add_items-IsPositive order [] h = h
add_items-IsPositive order (spec ∷ specs) h =
    add_items-IsPositive (add_item order spec) specs
      (add_line-IsPositive (new_line spec) order (positive_quantity_pos spec.quantity) h)
