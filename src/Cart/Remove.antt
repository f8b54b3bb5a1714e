-- ===== src/Cart/Remove.antt =====
-- `OrderService.remove_item`, `remove_by_index`, `remove_category` and `clear_order`. Each returns
-- the remaining lines and whether, or how many, lines went.
pub mod ByName
pub mod ByIndex
use order_agent.Prelude.{
  ℕ, zero, suc, Bool, true, false, not, ◌&&◌, ◌||◌, String, Option, none, some, List, [], ◌∷◌, ltb,
  ◌==◌, if◌then◌else◌, keep, length,
}
use order_agent.Prelude.Int.{ℤ, pos, negsuc}
use order_agent.Prelude.Text.{str_eq, is_in}
use order_agent.State.{OrderItem}

abbrev pub other_name : String → OrderItem → Bool
other_name item_name entry = not (str_eq entry.name item_name)

abbrev pub name_contains : String → OrderItem → Bool
name_contains item_name entry = is_in item_name entry.name

-- `len(matches) == 1 and matches[0].name != item_name`
abbrev is_lone_partial : String → List OrderItem → Bool
is_lone_partial item_name (entry ∷ []) = other_name item_name entry
is_lone_partial item_name _ = false

-- The part of `remove_item` after no line had the very name.
remove_partial : List OrderItem → String → List OrderItem → List OrderItem × Bool
remove_partial order item_name [] = (order, false)
remove_partial order item_name (m ∷ ms) =
    let remaining = keep (λ e. not (name_contains item_name e)) order in
    if is_lone_partial item_name (m ∷ ms)
    then (order, false)
    else (remaining, not (length remaining == length order))

unfoldable pub remove_item : List OrderItem → String → List OrderItem × Bool
unfolding remove_partial
remove_item order item_name =
    let remaining = keep (other_name item_name) order in
    if ltb (length remaining) (length order)
    then (remaining, true)
    else remove_partial order item_name (keep (name_contains item_name) order)

-- The lines at other positions than `n`.
remove_at : ℕ → List OrderItem → List OrderItem
remove_at n [] = []
remove_at zero (x ∷ xs) = xs
remove_at (suc n) (x ∷ xs) = x ∷ remove_at n xs

unfoldable pub remove_by_index : List OrderItem → ℤ → List OrderItem × Bool
unfolding remove_at
remove_by_index order (negsuc n) = (order, false)
remove_by_index order (pos n) =
    if ltb n (length order) then (remove_at n order, true) else (order, false)

-- `entry.category == category or category in entry.name`
abbrev pub in_category : String → OrderItem → Bool
in_category category entry =
    elim entry.category [ none ↦ false | some c ↦ str_eq c category ] || is_in category entry.name

-- `entry not in matched` compares lines by value, and the test of a line depends on its value
-- alone, so a line is in `matched` just if it passes the test itself.
unfoldable pub remove_category : List OrderItem → String → List OrderItem × ℕ
remove_category order category =
    (keep (λ e. not (in_category category e)) order, length (keep (in_category category) order))
