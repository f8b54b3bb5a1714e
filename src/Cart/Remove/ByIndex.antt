-- ===== src/Cart/Remove/ByIndex.antt =====
-- What `remove_by_index` takes out of the order.
use order_agent.Prelude.{
  ℕ, zero, suc, ◌<◌, ◌≡◌, refl, true, false, List, [], ◌∷◌, ◌++◌, arith, length, ap, All,
}
use order_agent.Prelude.Int.{ℤ, pos, negsuc}
use order_agent.State.{OrderItem}
use order_agent.Cart.Remove.{remove_at, remove_by_index}

split_at :
    (n : ℕ) (order : List OrderItem)
    → n < length order
    → (before : List OrderItem) × (entry : OrderItem) × (after : List OrderItem) × (order
        ≡ before ++ entry ∷ after)
      × (remove_at n order ≡ before ++ after)
      × (length before ≡ n)
unfolding remove_at
split_at n [] h = elim h [ ]
split_at zero (x ∷ order) h = ([], x, order, refl, refl, refl)
split_at (suc n) (x ∷ order) h =
    let (before, entry, after, whole, rest, size) = split_at n order (omega arith) in
    (x ∷ before, entry, after, ap (λ l. x ∷ l) whole, ap (λ l. x ∷ l) rest, omega (arith, size))

-- An index from 0 up to the last line takes out the line at that position and no other; any other
-- index, negative ones included, fails and leaves the order as it was.
pub remove_by_index_lem :
    (order : List OrderItem) (n : ℕ)
    → ((n < length order)
        → (before : List OrderItem) × (entry : OrderItem) × (after : List OrderItem) × (length
              before
            ≡ n)
          × (order ≡ before ++ entry ∷ after)
          × (remove_by_index order (pos n) ≡ (before ++ after, true)))
      × ((n < length order → ⊥) → remove_by_index order (pos n) ≡ (order, false))
      × (remove_by_index order (negsuc n) ≡ (order, false))
unfolding remove_by_index
remove_by_index_lem order n = (
  λ h.
      let (before, entry, after, whole, rest, size) = split_at n order h in
      (before, entry, after, size, whole, ground arith),
  λ h. ground arith,
  refl,
)

remove_at-All :
    (P : OrderItem → Type 0) (n : ℕ) (order : List OrderItem)
    → All P order
    → All P (remove_at n order)
unfolding remove_at
remove_at-All P n [] h = tt
remove_at-All P zero (x ∷ order) h = h.1
remove_at-All P (suc n) (x ∷ order) h = (h.0, remove_at-All P n order h.1)

-- What holds of every line still holds of the lines that are left.
pub remove_by_index-All :
    (P : OrderItem → Type 0) (order : List OrderItem) (index : ℤ)
    → All P order
    → All P (remove_by_index order index).0
unfolding remove_by_index
remove_by_index-All P order (negsuc n) h = h
remove_by_index-All P order (pos n) h = ground (arith, remove_at-All P n order h)
