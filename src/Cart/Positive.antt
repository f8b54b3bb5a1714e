-- ===== src/Cart/Positive.antt =====
-- No line of an order ever has a quantity below one.
use order_agent.Prelude.{String, Option, List, [], ◌∷◌, arith, All, All-keep}
use order_agent.Prelude.{not}
use order_agent.Prelude.Int.{ℤ, pos, ◌+ℤ◌, ◌≤ℤ◌, max_ℤ}
use order_agent.State.{MenuItem, OrderItem}
use order_agent.Cart.Lines.{positive_quantity, IsPositive, positive_quantity_pos}
use order_agent.Cart.Add.{Spec, add_items}
use order_agent.Cart.Add.Units.{add_items-IsPositive}
use order_agent.Cart.Remove.{remove_item, remove_by_index, remove_category, in_category}
use order_agent.Cart.Remove.ByName.{remove_item-All}
use order_agent.Cart.Remove.ByIndex.{remove_by_index-All}
use order_agent.Cart.Update.{
  ModifierChange, update_options, update_notes, update_item_modifiers, update_quantity,
  adjust_quantity,
}
use order_agent.Cart.Update.Frame.{
  update_options-All, update_notes-All, update_item_modifiers-All, update_lines-All,
}
use order_agent.Cart.Replace.{replace_item, replacement}
use order_agent.Cart.Replace.Target.{replace_item-All}

-- The operations of `OrderService` that return a new list of lines, with their arguments.
pub data Edit : Type 0 where
  add : List Spec → Edit
  remove remove_all : String → Edit
  remove_index : ℤ → Edit
  clear : Edit
  set_options : String → List String → Option ℤ → Edit
  set_notes : String → String → Option ℤ → Edit
  set_modifiers : String → ModifierChange → Option ℤ → Edit
  set_quantity : String → Option ℤ → Option ℤ → Edit
  adjust : String → ℤ → Option ℤ → Edit
  replace : String → MenuItem → ℤ → List String → Option ℤ → Edit

unfoldable pub edit : Edit → List OrderItem → List OrderItem
edit (Edit.add specs) order = add_items order specs
edit (Edit.remove item_name) order = (remove_item order item_name).0
edit (Edit.remove_all category) order = (remove_category order category).0
edit (Edit.remove_index index) order = (remove_by_index order index).0
edit Edit.clear order = []
edit (Edit.set_options item_name options index) order =
    (update_options order item_name options index).0
edit (Edit.set_notes item_name note index) order = (update_notes order item_name note index).0
edit (Edit.set_modifiers item_name change index) order =
    (update_item_modifiers order item_name change index).0
edit (Edit.set_quantity item_name quantity index) order =
    (update_quantity order item_name quantity index).0
edit (Edit.adjust item_name delta index) order = (adjust_quantity order item_name delta index).0
edit (Edit.replace old item quantity options index) order =
    (replace_item order old item quantity options index).0

unfoldable pub edits : List Edit → List OrderItem → List OrderItem
unfolding edit
edits [] order = order
edits (e ∷ es) order = edits es (edit e order)

-- `replace_item` is the one operation that takes a quantity as it is given.
abbrev pub AsksNatural : Edit → Type 0
AsksNatural (Edit.replace old item quantity options index) = pos 0 ≤ℤ quantity
AsksNatural _ = Unit

replacement-IsPositive :
    (item : MenuItem) (quantity : ℤ) (options : List String) (entry : OrderItem)
    → pos 0 ≤ℤ quantity
    → IsPositive entry
    → IsPositive (replacement item quantity options entry)
unfolding replacement
replacement-IsPositive item quantity options entry h k = ground arith

edit-IsPositive :
    (e : Edit) (order : List OrderItem)
    → AsksNatural e
    → All IsPositive order
    → All IsPositive (edit e order)
unfolding edit
edit-IsPositive (Edit.add specs) order n h = add_items-IsPositive order specs h
edit-IsPositive (Edit.remove item_name) order n h = remove_item-All IsPositive order item_name h
edit-IsPositive (Edit.remove_all category) order n h =
    unfold remove_category in All-keep IsPositive (λ e. not (in_category category e)) order h
edit-IsPositive (Edit.remove_index index) order n h = remove_by_index-All IsPositive order index h
edit-IsPositive Edit.clear order n h = tt
edit-IsPositive (Edit.set_options item_name options index) order n h =
    update_options-All IsPositive options order item_name index (λ e os k. k) h
edit-IsPositive (Edit.set_notes item_name note index) order n h =
    update_notes-All IsPositive note order item_name index (λ e s k. k) h
edit-IsPositive (Edit.set_modifiers item_name change index) order n h =
    update_item_modifiers-All IsPositive change order item_name index (λ e l x s k. k) h
edit-IsPositive (Edit.set_quantity item_name quantity index) order n h =
    unfold update_quantity in
    update_lines-All IsPositive (λ e. record e { quantity = positive_quantity quantity })
      (λ e k. positive_quantity_pos quantity) order item_name index h
edit-IsPositive (Edit.adjust item_name delta index) order n h =
    unfold adjust_quantity in
    update_lines-All IsPositive (λ e. record e { quantity = max_ℤ (e.quantity +ℤ delta) (pos 1) })
      (λ e k. ground arith) order item_name index h
edit-IsPositive (Edit.replace old item quantity options index) order n h =
    replace_item-All IsPositive order old item quantity options index
      (λ entry. replacement-IsPositive item quantity options entry n) h

-- After any edits, however they are ordered, every line of the order is for at least one portion,
-- if it was so before and no replacement is asked for with a negative quantity.
pub edits-IsPositive :
    (es : List Edit) (order : List OrderItem)
    → All AsksNatural es
    → All IsPositive order
    → All IsPositive (edits es order)
unfolding edits
edits-IsPositive [] order n h = h
edits-IsPositive (e ∷ es) order n h =
    edits-IsPositive es (edit e order) n.1 (edit-IsPositive e order n.0 h)
