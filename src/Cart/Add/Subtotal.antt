-- ===== src/Cart/Add/Subtotal.antt =====
-- What adding a dish does to the subtotal.
use order_agent.Prelude.{◌≡◌, true, List, [], ◌∷◌, arith, All, eq_iff, Bool-cases, inl, inr}
use order_agent.Prelude.Int.{◌+ℤ◌, ◌*ℤ◌, int_laws, *ℤ-+ℤ}
use order_agent.State.{OrderItem}
use order_agent.Cart.Lines.{positive_quantity}
use order_agent.Cart.Add.{Spec, minor_or_price, new_line, same_line, add_line, add_item}
use order_agent.Cart.Totals.{unit_minor, subtotal_minor}

-- The lines that a new line could join have its unit price.
abbrev pub IsPricedAs : OrderItem → List OrderItem → Type 0
IsPricedAs line = All (λ entry. entry.item_id ≡ line.item_id → unit_minor entry ≡ unit_minor line)

same_line-item_id :
    (line entry : OrderItem) → same_line line entry ≡ true → entry.item_id ≡ line.item_id
unfolding same_line
same_line-item_id line entry h = ground (arith, eq_iff entry.item_id line.item_id)

subtotal_minor-add_line :
    (line : OrderItem) (order : List OrderItem)
    → IsPricedAs line order
    → subtotal_minor (add_line line order)
      ≡ subtotal_minor order +ℤ unit_minor line *ℤ line.quantity
unfolding add_line subtotal_minor
subtotal_minor-add_line line [] h = omega int_laws
subtotal_minor-add_line line (entry ∷ order) h = elim (Bool-cases (same_line line entry)) [
  | inl same ↦
      let priced = h.0 (same_line-item_id line entry same) in
      rw (same, priced, *ℤ-+ℤ (unit_minor line) entry.quantity line.quantity) (omega int_laws)
  | inr other ↦ rw (other, subtotal_minor-add_line line order h.1) (omega int_laws)
]

-- Adding a dish raises the subtotal by its unit price times the quantity, counted as at least one,
-- if the lines of the same menu item have that unit price.
pub subtotal_minor-add_item :
    (order : List OrderItem) (spec : Spec)
    → IsPricedAs (new_line spec) order
    → subtotal_minor (add_item order spec)
      ≡ subtotal_minor order
        +ℤ minor_or_price spec.item.base_price_minor spec.item.price
          *ℤ positive_quantity spec.quantity
unfolding add_item new_line
subtotal_minor-add_item order spec h = subtotal_minor-add_line (new_line spec) order h
