-- ===== src/Cart/Remove/ByName.antt =====
-- What `remove_item` and `remove_category` leave in the order.
use order_agent.Prelude.{
  ◌+◌, ◌<◌, ◌≡◌, refl, Bool, true, false, not, String, List, [], ◌∷◌, arith, keep, length, All,
  length-keep-le, All-keep, Bool-cases, inl, inr, ◌⊎◌, ltb,
}
use order_agent.State.{OrderItem}
use order_agent.Cart.Remove.{
  other_name, name_contains, in_category, remove_partial, remove_item, remove_category,
}

keep-not-All :
    (p : OrderItem → Bool) (order : List OrderItem)
    → All (λ e. p e ≡ false) (keep (λ e. not (p e)) order)
keep-not-All p [] = tt
keep-not-All p (e ∷ order) = ground (arith, keep-not-All p order)

length-keep-not :
    (p : OrderItem → Bool) (order : List OrderItem)
    → length (keep (λ e. not (p e)) order) + length (keep p order) ≡ length order
length-keep-not p [] = omega arith
length-keep-not p (e ∷ order) = ground (arith, length-keep-not p order)

-- The lines that a removal by name leaves: all but those of that name, or, where no line has that
-- very name, all but those whose names contain it.
abbrev pub IsRemoval : List OrderItem → String → List OrderItem → Type 0
IsRemoval order item_name rest =
    (rest ≡ keep (other_name item_name) order)
    ⊎ (rest ≡ keep (λ e. not (name_contains item_name e)) order)
      × (keep (other_name item_name) order ≡ order)

keep_all :
    (p : OrderItem → Bool) (order : List OrderItem)
    → ltb (length (keep p order)) (length order) ≡ false
    → keep p order ≡ order
keep_all p [] h = refl
keep_all p (e ∷ order) h = ground (arith, keep_all p order, length-keep-le p order)

module _ (order : List OrderItem) (item_name : String) where
  abbrev without_partial : List OrderItem
  without_partial = keep (λ e. not (name_contains item_name e)) order

  remove_partial_lem :
      (matches : List OrderItem)
      → keep (other_name item_name) order ≡ order
      → let (rest, removed) = remove_partial order item_name matches in
        (removed ≡ false → rest ≡ order)
        × (removed ≡ true → (length rest < length order) × IsRemoval order item_name rest)
  unfolding remove_partial
  remove_partial_lem [] none_named = ground arith
  remove_partial_lem (m ∷ ms) none_named = ground (
    arith,
    length-keep-le (λ (e : OrderItem). not (name_contains item_name e)) order,
    keep_all (λ (e : OrderItem). not (name_contains item_name e)) order,
  )

-- A removal that reports failure leaves the order as it was. One that reports success makes it
-- shorter; it drops exactly the lines of that name, or, if there is none, exactly the lines whose
-- names contain it.
pub remove_item_lem :
    (order : List OrderItem) (item_name : String)
    → let (rest, removed) = remove_item order item_name in
      (removed ≡ false → rest ≡ order)
      × (removed ≡ true → (length rest < length order) × IsRemoval order item_name rest)
unfolding remove_item
remove_item_lem order item_name =
    elim (Bool-cases (ltb (length (keep (other_name item_name) order)) (length order))) [
      | inl named ↦ rw named (λ e. cc, λ e. (ground arith, inl refl))
      | inr unnamed ↦ rw unnamed (
          remove_partial_lem order item_name (keep (name_contains item_name) order)
            (keep_all (other_name item_name) order unnamed))
    ]

-- Removing a category leaves exactly the lines outside it, keeps their order, and counts the lines
-- that went.
pub remove_category_lem :
    (order : List OrderItem) (category : String)
    → let (rest, count) = remove_category order category in
      All (λ e. in_category category e ≡ false) rest
      × (length rest + count ≡ length order)
      × (count ≡ 0 → rest ≡ order)
unfolding remove_category
remove_category_lem order category =
    let p : OrderItem → Bool = in_category category in
    let count = length-keep-not p order in
    (
      keep-not-All p order,
      count,
      λ none_gone. keep_all (λ e. not (p e)) order (ground (arith, count)),
    )

-- What holds of every line still holds of the lines that are left.
pub remove_item-All :
    (P : OrderItem → Type 0) (order : List OrderItem) (item_name : String)
    → All P order
    → All P (remove_item order item_name).0
remove_item-All P order item_name h = elim (Bool-cases (remove_item order item_name).1) [
  | inl removed ↦ elim ((remove_item_lem order item_name).1 removed).1 [
    | inl named ↦ rw named (All-keep P (other_name item_name) order h)
    | inr partly ↦ rw (partly.0) (All-keep P (λ e. not (name_contains item_name e)) order h)
  ]
  | inr kept ↦ rw ((remove_item_lem order item_name).0 kept) h
]
