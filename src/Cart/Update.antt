-- ===== src/Cart/Update.antt =====
-- The operations of `OrderService` that change lines in place: `update_options`, `update_notes`,
-- `update_item_modifiers`, `update_quantity` and `adjust_quantity`. Each returns the lines and
-- whether any was the target.
pub mod Frame
pub mod Options
use order_agent.Prelude.{
  ℕ, zero, suc, Bool, true, false, not, ◌||◌, String, Option, none, some, List, [], ◌∷◌, ◌++◌,
  if◌then◌else◌, keep, is_some,
}
use order_agent.Prelude.Int.{ℤ, pos, ◌+ℤ◌, max_ℤ}
use order_agent.Prelude.Text.{strip, split, join, member}
use order_agent.State.{OrderItem}
use order_agent.Cart.Lines.{is_empty, positive_quantity, clean_text, dedupe, matches_target}

-- The loop that the operations share, from position `p` on: `change` is applied to each target.
pub update_from :
    (ℕ → OrderItem → Bool) → (OrderItem → OrderItem) → ℕ → List OrderItem → List OrderItem × Bool
update_from target change p [] = ([], false)
update_from target change p (entry ∷ order) =
    let (rest, updated) = update_from target change (suc p) order in
    if target p entry then (change entry ∷ rest, true) else (entry ∷ rest, updated)

pub update_lines :
    List OrderItem → String → Option ℤ → (OrderItem → OrderItem) → List OrderItem × Bool
unfolding update_from matches_target
update_lines order item_name index change =
    update_from (λ p entry. matches_target p entry item_name index) change 0 order

-- `for option in options: if option not in entry.options: entry.options.append(option)`
unfoldable pub add_options : List String → List String → List String
add_options present [] = present
add_options present (option ∷ options) =
    add_options (if member option present then present else present ++ option ∷ []) options

unfoldable pub update_options :
    List OrderItem → String → List String → Option ℤ → List OrderItem × Bool
unfolding update_lines add_options
update_options order item_name options index =
    update_lines order item_name index
      (λ entry. record entry { options = add_options entry.options options })

-- `"；"`, by its code point.
abbrev semicolon : ℕ
semicolon = 0xff1b

-- `entry.notes.strip() if entry.notes else ""`
abbrev existing_note : Option String → String
existing_note none = ""
existing_note (some notes) = strip notes

-- The note is joined to the ones that the line has, unless it is among them.
append_note : String → Option String → String
unfolding strip split join
append_note note notes =
    let existing = existing_note notes in
    if member note (split semicolon existing)
    then existing
    else join "；" (keep (λ part. not (is_empty part)) (existing ∷ note ∷ []))

unfoldable pub update_notes : List OrderItem → String → String → Option ℤ → List OrderItem × Bool
unfolding update_lines append_note strip
update_notes order item_name note index =
    if is_empty (strip note)
    then (order, false)
    else update_lines order item_name index
        (λ entry. record entry { notes = some (append_note (strip note) entry.notes) })

-- The keyword arguments of `update_item_modifiers`.
pub record ModifierChange : Type 0 where
  pub spicy_level : Option String
  pub clear_spicy : Bool
  pub exclusions : List String
  pub remove_exclusions : List String
  pub note : Option String
  pub replace_note : Bool
  pub clear_notes : Bool

abbrev has_any : List String → Bool
has_any [] = false
has_any (x ∷ xs) = true

-- `has_requested_change`, of arguments that are cleaned.
abbrev has_requested_change : ModifierChange → Bool
has_requested_change change =
    is_some change.spicy_level
    || change.clear_spicy
    || has_any change.exclusions
    || has_any change.remove_exclusions
    || is_some change.note
    || change.replace_note
    || change.clear_notes

abbrev pub changed_spicy : ModifierChange → Option String → Option String
changed_spicy change old =
    if change.clear_spicy
    then none
    else elim change.spicy_level [ none ↦ old | some level ↦ some level ]

-- New exclusions are joined first, and then the removed ones go.
abbrev pub changed_exclusions : ModifierChange → List String → List String
changed_exclusions change old =
    let joined = if has_any change.exclusions then dedupe (old ++ change.exclusions) else old in
    keep (λ value. not (member value change.remove_exclusions)) joined

pub changed_notes : ModifierChange → Option String → Option String
unfolding append_note
changed_notes change old = if change.clear_notes then none else elim change.note [
  | none ↦ old
  | some note ↦ if change.replace_note then some note else some (append_note note old)
]

-- The arguments as the first lines of the method clean them.
abbrev pub cleaned : ModifierChange → ModifierChange
cleaned change = record change {
  spicy_level = clean_text change.spicy_level;
  exclusions = dedupe change.exclusions;
  remove_exclusions = dedupe change.remove_exclusions;
  note = clean_text change.note;
}

abbrev pub change_line : ModifierChange → OrderItem → OrderItem
change_line change entry = record entry {
  spicy_level = changed_spicy change entry.spicy_level;
  exclusions = changed_exclusions change entry.exclusions;
  notes = changed_notes change entry.notes;
}

unfoldable pub update_item_modifiers :
    List OrderItem → String → ModifierChange → Option ℤ → List OrderItem × Bool
unfolding update_lines changed_notes clean_text dedupe
update_item_modifiers order item_name requested index =
    let change = cleaned requested in
    if has_requested_change change
    then update_lines order item_name index (change_line change)
    else (order, false)

unfoldable pub update_quantity :
    List OrderItem → String → Option ℤ → Option ℤ → List OrderItem × Bool
unfolding update_lines positive_quantity
update_quantity order item_name quantity index =
    update_lines order item_name index
      (λ entry. record entry { quantity = positive_quantity quantity })

unfoldable pub adjust_quantity : List OrderItem → String → ℤ → Option ℤ → List OrderItem × Bool
unfolding update_lines
adjust_quantity order item_name delta index =
    update_lines order item_name index
      (λ entry. record entry { quantity = max_ℤ (entry.quantity +ℤ delta) (pos 1) })
