-- ===== src/Cart/Lines.antt =====
-- The private helpers of `OrderService`. Its `_copy_order_item` makes a deep copy of a line, so that
-- a change of the copy does not reach the session: on values it is the identity, and is left out.
use order_agent.Prelude.{
  ℕ, Bool, true, false, not, String, Option, none, some, List, map, ◌==◌, if◌then◌else◌, keep,
  arith,
}
use order_agent.Prelude.Int.{ℤ, pos, negsuc, ◌≤ℤ◌, is_zero, max_ℤ}
use order_agent.Prelude.Text.{strip, unique, str_eq}
use order_agent.State.{OrderItem}

-- Python's truth of a text, negated.
abbrev pub is_empty : String → Bool
is_empty String.[] = true
is_empty (String.◌∷◌ c s) = false

-- `quantity or 1`
abbrev or_one : Option ℤ → ℤ
or_one none = pos 1
or_one (some q) = if is_zero q then pos 1 else q

-- `_positive_quantity`
unfoldable pub positive_quantity : Option ℤ → ℤ
positive_quantity quantity = max_ℤ (or_one quantity) (pos 1)

-- `text or None`
abbrev pub non_empty : String → Option String
non_empty s = if is_empty s then none else some s

-- `_clean_text`
unfoldable pub clean_text : Option String → Option String
unfolding strip
clean_text none = none
clean_text (some value) = non_empty (strip value)

-- `_dedupe`: a value that is empty or blank strips to an empty text.
unfoldable pub dedupe : List String → List String
unfolding strip
dedupe values = unique (keep (λ s. not (is_empty s)) (map strip values))

-- `pos == index`
abbrev is_index : ℕ → ℤ → Bool
is_index p (pos n) = p == n
is_index p (negsuc n) = false

-- `_matches_target`
unfoldable pub matches_target : ℕ → OrderItem → String → Option ℤ → Bool
matches_target p entry item_name none = str_eq entry.name item_name
matches_target p entry item_name (some index) = is_index p index

-- A line for at least one portion.
abbrev pub IsPositive : OrderItem → Type 0
IsPositive entry = pos 1 ≤ℤ entry.quantity

pub positive_quantity_pos : (quantity : Option ℤ) → pos 1 ≤ℤ positive_quantity quantity
unfolding positive_quantity
positive_quantity_pos quantity = ground arith
