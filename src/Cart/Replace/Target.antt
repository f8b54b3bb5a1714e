-- ===== src/Cart/Replace/Target.antt =====
-- What `replace_item` does to the lines.
use order_agent.Prelude.{
  ℕ, zero, suc, ◌≡◌, refl, Bool, true, false, ◌||◌, String, Option, List, [], ◌∷◌, arith, All, inl,
  inr, Bool-cases, keep, ◌++◌, none, eq_iff,
}
use order_agent.Prelude.Int.{ℤ}
use order_agent.Prelude.Text.{str_eq}
use order_agent.Cart.Remove.{other_name}
use order_agent.State.{MenuItem, OrderItem}
use order_agent.Cart.Lines.{matches_target}
use order_agent.Cart.Replace.{
  replacement, replace_from, partial_targets, replace_at, replace_lone, replace_item,
}

module _ (P : OrderItem → Type 0) (new : OrderItem → OrderItem)
    (keeps : (entry : OrderItem) → P entry → P (new entry)) where
  replace_from-All :
      (target : ℕ → OrderItem → Bool) (p : ℕ) (replaced : Bool) (order : List OrderItem)
      → All P order
      → All P (replace_from target new p replaced order).0
  unfolding replace_from
  replace_from-All target p replaced [] h = tt
  replace_from-All target p replaced (entry ∷ order) h = ground (
    arith,
    keeps entry h.0,
    replace_from-All target (suc p) (replaced || target p entry) order h.1,
  )

  replace_at-All :
      (p : ℕ) (line : OrderItem) (order : List OrderItem)
      → P line
      → All P order
      → All P (replace_at p line order)
  unfolding replace_at
  replace_at-All p line [] k h = tt
  replace_at-All zero line (entry ∷ order) k h = (k, h.1)
  replace_at-All (suc p) line (entry ∷ order) k h = (h.0, replace_at-All p line order k h.1)

  partial_targets-All :
      (p : ℕ) (old : String) (order : List OrderItem)
      → All P order
      → All (λ found. P found.1) (partial_targets p old order)
  unfolding partial_targets
  partial_targets-All p old [] h = tt
  partial_targets-All p old (entry ∷ order) h =
      ground (arith, partial_targets-All (suc p) old order h.1)

  replace_lone-All :
      (order : List OrderItem) (old : String) (found : List (ℕ × OrderItem))
      → All P order
      → All (λ f. P f.1) found
      → All P (replace_lone order old new found).0
  unfolding replace_lone
  replace_lone-All order old [] h k = h
  replace_lone-All order old ((p, entry) ∷ []) h k =
      ground (arith, replace_at-All p (new entry) order (keeps entry k.0) h)
  replace_lone-All order old (f ∷ g ∷ found) h k = h

-- What the new line takes over from the one it replaces holds of every line afterwards.
pub replace_item-All :
    (P : OrderItem → Type 0) (order : List OrderItem) (old : String) (item : MenuItem)
    (quantity : ℤ) (options : List String) (index : Option ℤ)
    → ((entry : OrderItem) → P entry → P (replacement item quantity options entry))
    → All P order
    → All P (replace_item order old item quantity options index).0
unfolding replace_item
replace_item-All P order old item quantity options index keeps h =
    let new : OrderItem → OrderItem = replacement item quantity options in
    let target : ℕ → OrderItem → Bool = λ p entry. matches_target p entry old index in
    elim (Bool-cases (replace_from target new 0 false order).1) [
      | inl done ↦ rw done (replace_from-All P new keeps target 0 false order h)
      | inr left ↦ rw left (
          replace_lone-All P new keeps order old (partial_targets 0 old order) h
            (partial_targets-All P new keeps 0 old order h))
    ]

replace_from_rest :
    (old : String) (new : OrderItem → OrderItem) (p : ℕ) (order : List OrderItem)
    → replace_from (λ n entry. str_eq entry.name old) new p true order
      ≡ (keep (other_name old) order, true)
unfolding replace_from
replace_from_rest old new p [] = refl
replace_from_rest old new p (entry ∷ order) =
    ground (arith, replace_from_rest old new (suc p) order)

replace_from_first :
    (old : String) (new : OrderItem → OrderItem) (entry : OrderItem) (after : List OrderItem)
    → str_eq entry.name old ≡ true
    → (p : ℕ) (before : List OrderItem) → All (λ e. str_eq e.name old ≡ false) before
    → replace_from (λ n e. str_eq e.name old) new p false (before ++ entry ∷ after)
      ≡ (before ++ new entry ∷ keep (other_name old) after, true)
unfolding replace_from
replace_from_first old new entry after named p [] h =
    ground (arith, replace_from_rest old new (suc p) after)
replace_from_first old new entry after named p (e ∷ before) h =
    ground (arith, replace_from_first old new entry after named (suc p) before h.1)

-- Replacing by name puts the new line where the first line of the old name stood, with that line's
-- quantity if none is asked for, keeps the lines before it, and leaves out every later line of the
-- old name.
pub replace_item_by_name :
    (old : String) (item : MenuItem) (quantity : ℤ) (options : List String) (entry : OrderItem)
    (before after : List OrderItem)
    → All (λ e. str_eq e.name old ≡ false) before
    → entry.name ≡ old
    → replace_item (before ++ entry ∷ after) old item quantity options none
      ≡ (before ++ replacement item quantity options entry ∷ keep (other_name old) after, true)
unfolding replace_item matches_target
replace_item_by_name old item quantity options entry before after h named = rw (
    replace_from_first old (replacement item quantity options) entry after
      ((eq_iff entry.name old).1 named) 0 before h)
