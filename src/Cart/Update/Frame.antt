-- ===== src/Cart/Update/Frame.antt =====
-- What the operations that change lines in place leave alone.
use order_agent.Prelude.{
  ℕ, suc, ◌≡◌, refl, Bool, true, false, String, Option, List, [], ◌∷◌, arith, if◌then◌else◌, length,
  ap, inl, inr, Bool-cases, All, some,
}
use order_agent.Prelude.Int.{ℤ}
use order_agent.State.{OrderItem}
use order_agent.Cart.Lines.{matches_target, is_empty}
use order_agent.Prelude.Text.{strip}
use order_agent.Cart.Update.{
  ModifierChange, update_from, update_lines, update_options, add_options, update_notes, append_note,
  update_item_modifiers, cleaned, has_requested_change, change_line, changed_spicy,
  changed_exclusions, changed_notes,
}

-- The lines from position `p` on, each changed just if it is the target.
abbrev pub changed_from :
    (ℕ → OrderItem → Bool) → (OrderItem → OrderItem) → ℕ → List OrderItem → List OrderItem
changed_from target change p [] = []
changed_from target change p (entry ∷ order) =
    (if target p entry then change entry else entry) ∷ changed_from target change (suc p) order

abbrev pub any_target : (ℕ → OrderItem → Bool) → ℕ → List OrderItem → Bool
any_target target p [] = false
any_target target p (entry ∷ order) =
    if target p entry then true else any_target target (suc p) order

pub update_from_lem :
    (target : ℕ → OrderItem → Bool) (change : OrderItem → OrderItem) (p : ℕ)
    (order : List OrderItem)
    → update_from target change p order
      ≡ (changed_from target change p order, any_target target p order)
unfolding update_from
update_from_lem target change p [] = refl
update_from_lem target change p (entry ∷ order) =
    ground (arith, update_from_lem target change (suc p) order)

pub changed_from_none :
    (target : ℕ → OrderItem → Bool) (change : OrderItem → OrderItem) (p : ℕ)
    (order : List OrderItem)
    → any_target target p order ≡ false
    → changed_from target change p order ≡ order
changed_from_none target change p [] h = refl
changed_from_none target change p (entry ∷ order) h =
    ground (arith, changed_from_none target change (suc p) order)

pub length-changed_from :
    (target : ℕ → OrderItem → Bool) (change : OrderItem → OrderItem) (p : ℕ)
    (order : List OrderItem)
    → length (changed_from target change p order) ≡ length order
length-changed_from target change p [] = refl
length-changed_from target change p (entry ∷ order) =
    ap suc (length-changed_from target change (suc p) order)

changed_from-All :
    (P : OrderItem → Type 0) (target : ℕ → OrderItem → Bool) (change : OrderItem → OrderItem)
    → ((entry : OrderItem) → P entry → P (change entry))
    → (p : ℕ) (order : List OrderItem) → All P order
    → All P (changed_from target change p order)
changed_from-All P target change keeps p [] h = tt
changed_from-All P target change keeps p (entry ∷ order) h =
    ground (arith, keeps entry, changed_from-All P target change keeps (suc p) order h.1)

-- What the change keeps of a line holds of every line afterwards.
pub update_lines-All :
    (P : OrderItem → Type 0) (change : OrderItem → OrderItem)
    → ((entry : OrderItem) → P entry → P (change entry))
    → (order : List OrderItem) (item_name : String) (index : Option ℤ) → All P order
    → All P (update_lines order item_name index change).0
unfolding update_lines
update_lines-All P change keeps order item_name index h =
    let target : ℕ → OrderItem → Bool = λ p entry. matches_target p entry item_name index in
    rw (update_from_lem target change 0 order) (changed_from-All P target change keeps 0 order h)

module _ (P : OrderItem → Type 0) where
  pub update_options-All :
      (options : List String) (order : List OrderItem) (item_name : String) (index : Option ℤ)
      → ((entry : OrderItem) (os : List String) → P entry → P (record entry { options = os }))
      → All P order
      → All P (update_options order item_name options index).0
  unfolding update_options
  update_options-All options order item_name index keeps h =
      update_lines-All P (λ e. record e { options = add_options e.options options })
        (λ e. keeps e (add_options e.options options)) order item_name index h

  pub update_notes-All :
      (note : String) (order : List OrderItem) (item_name : String) (index : Option ℤ)
      → ((entry : OrderItem) (n : Option String) → P entry → P (record entry { notes = n }))
      → All P order
      → All P (update_notes order item_name note index).0
  unfolding update_notes
  update_notes-All note order item_name index keeps h =
      elim (is_empty (strip note))
        as (λ b.
          All P
            (if b
              then (order, false)
              else update_lines order item_name index
                  (λ e. record e { notes = some (append_note (strip note) e.notes) })).0) [
                    | true ↦ h
                    | false ↦
                        update_lines-All P
                          (λ e. record e { notes = some (append_note (strip note) e.notes) })
                          (λ e. keeps e (some (append_note (strip note) e.notes))) order item_name
                          index h
                  ]

  pub update_item_modifiers-All :
      (change : ModifierChange) (order : List OrderItem) (item_name : String) (index : Option ℤ)
      → ((entry : OrderItem) (l : Option String) (x : List String) (n : Option String)
          → P entry
          → P (record entry { spicy_level = l; exclusions = x; notes = n }))
      → All P order
      → All P (update_item_modifiers order item_name change index).0
  unfolding update_item_modifiers
  update_item_modifiers-All change order item_name index keeps h =
      elim (Bool-cases (has_requested_change (cleaned change))) [
        | inl asked ↦ rw asked (
            update_lines-All P (change_line (cleaned change))
              (λ e.
                keeps e (changed_spicy (cleaned change) e.spicy_level)
                  (changed_exclusions (cleaned change) e.exclusions)
                  (changed_notes (cleaned change) e.notes))
              order item_name index h)
        | inr nothing ↦ rw nothing h
      ]
