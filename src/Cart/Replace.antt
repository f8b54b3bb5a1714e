-- ===== src/Cart/Replace.antt =====
-- `OrderService.replace_item`.
pub mod Target
use order_agent.Prelude.{
  ℕ, zero, suc, Bool, true, false, ◌||◌, String, Option, none, some, List, [], ◌∷◌, if◌then◌else◌,
}
use order_agent.Prelude.Int.{ℤ, is_zero}
use order_agent.Prelude.Text.{str_eq, is_in}
use order_agent.State.{MenuItem, OrderItem}
use order_agent.Cart.Lines.{matches_target}
use order_agent.Cart.Add.{minor_or_price}

-- The line that takes the place of `entry`: `quantity or entry.quantity`.
unfoldable pub replacement : MenuItem → ℤ → List String → OrderItem → OrderItem
replacement item quantity options entry = record {
  item_id = item.id;
  name = item.name;
  price = item.price;
  unit_price_minor = some (minor_or_price item.base_price_minor item.price);
  currency = item.currency;
  menu_item_db_id = item.menu_item_db_id;
  menu_version_id = item.menu_version_id;
  quantity = if is_zero quantity then entry.quantity else quantity;
  options = options;
  spicy_level = none;
  exclusions = [];
  notes = none;
  category = some item.category;
  unit = none;
  source = none;
}

-- The first loop: the first target is replaced, and every later target is left out.
replace_from :
    (ℕ → OrderItem → Bool)
    → (OrderItem → OrderItem)
    → ℕ
    → Bool
    → List OrderItem
    → List OrderItem × Bool
replace_from target new p replaced [] = ([], replaced)
replace_from target new p replaced (entry ∷ order) =
    let is_target = target p entry in
    let (rest, done) = replace_from target new (suc p) (replaced || is_target) order in
    if is_target
    then (if replaced then (rest, done) else (new entry ∷ rest, done))
    else (entry ∷ rest, done)

-- The positions of the lines whose names contain the old name.
partial_targets : ℕ → String → List OrderItem → List (ℕ × OrderItem)
partial_targets p old_item_name [] = []
partial_targets p old_item_name (entry ∷ order) =
    let rest = partial_targets (suc p) old_item_name order in
    if is_in old_item_name entry.name then (p, entry) ∷ rest else rest

-- `order[:p] + [line] + order[p + 1:]`
replace_at : ℕ → OrderItem → List OrderItem → List OrderItem
replace_at p line [] = []
replace_at zero line (entry ∷ order) = line ∷ order
replace_at (suc p) line (entry ∷ order) = entry ∷ replace_at p line order

-- The second part, where the loop replaced nothing: a lone line that contains the old name is
-- replaced if it is the old name, which needs an index that is out of range.
replace_lone :
    List OrderItem → String → (OrderItem → OrderItem) → List (ℕ × OrderItem) → List OrderItem × Bool
unfolding replace_at
replace_lone order old_item_name new ((p, entry) ∷ []) =
    if str_eq entry.name old_item_name
    then (replace_at p (new entry) order, true)
    else (order, false)
replace_lone order old_item_name new _ = (order, false)

unfoldable pub replace_item :
    List OrderItem → String → MenuItem → ℤ → List String → Option ℤ → List OrderItem × Bool
unfolding replacement replace_from partial_targets replace_lone matches_target
replace_item order old_item_name item quantity options index =
    let new = replacement item quantity options in
    let (lines, replaced) =
      replace_from (λ p entry. matches_target p entry old_item_name index) new 0 false order in
    if replaced
    then (lines, true)
    else replace_lone order old_item_name new (partial_targets 0 old_item_name order)
