-- ===== src/Cart/Update/Options.antt =====
-- What `update_options` and `update_item_modifiers` put on a line and take off it.
use order_agent.Prelude.{
  ◌≡◌, refl, true, false, not, ◌||◌, String, List, [], ◌∷◌, ◌++◌, arith, keep, eq_iff,
  if◌then◌else◌, Bool-cases, inl, inr, none,
}
use order_agent.Prelude.Text.{member, str_eq}
use order_agent.Prelude.Text.Membership.{member-append}
use order_agent.State.{OrderItem}
use order_agent.Cart.Lines.{dedupe}
use order_agent.Cart.Update.{add_options, ModifierChange, change_line, changed_notes, has_any}

-- No text stands twice in the list.
abbrev pub IsDistinct : List String → Type 0
IsDistinct [] = Unit
IsDistinct (x ∷ xs) = (member x xs ≡ false) × IsDistinct xs

IsDistinct-append :
    (xs : List String) (s : String)
    → IsDistinct xs
    → member s xs ≡ false
    → IsDistinct (xs ++ s ∷ [])
IsDistinct-append [] s d h = (refl, tt)
IsDistinct-append (x ∷ xs) s d h =
    ground (arith, IsDistinct-append xs s d.1, member-append x xs (s ∷ []), eq_iff s x, eq_iff x s)

member_self : (s : String) (xs : List String) → member s (s ∷ xs) ≡ true
member_self s xs = ground (arith, eq_iff s s)

same_texts : (s t : String) → str_eq s t ≡ true → s ≡ t
same_texts s t h = (eq_iff s t).0 h

member-add_options :
    (s : String) (options present : List String)
    → member s (add_options present options) ≡ (member s present || member s options)
unfolding add_options
member-add_options s [] present = ground arith
member-add_options s (option ∷ options) present = elim (Bool-cases (member option present)) [
  | inl there ↦
      rw (there, member-add_options s options present) (ground (arith, eq_iff option s, there))
  | inr new ↦
      rw (new, member-add_options s options (present ++ option ∷ []))
        (rw (member-append s present (option ∷ [])) (ground arith))
]

IsDistinct-add_options :
    (options present : List String) → IsDistinct present → IsDistinct (add_options present options)
unfolding add_options
IsDistinct-add_options [] present d = d
IsDistinct-add_options (option ∷ options) present d = elim (Bool-cases (member option present)) [
  | inl there ↦ rw there (IsDistinct-add_options options present d)
  | inr new ↦ rw new (
      IsDistinct-add_options options (present ++ option ∷ [])
        (IsDistinct-append present option d new))
]

-- The options of a line after an update are those that it had and those that were asked for, and
-- none of them twice if none was there twice before.
pub add_options_lem :
    (present options : List String)
    → ((s : String)
        → member s (add_options present options) ≡ (member s present || member s options))
      × (IsDistinct present → IsDistinct (add_options present options))
add_options_lem present options =
    (λ s. member-add_options s options present, IsDistinct-add_options options present)

member-keep-not :
    (s : String) (gone xs : List String)
    → member s gone ≡ true
    → member s (keep (λ value. not (member value gone)) xs) ≡ false
member-keep-not s gone [] h = refl
member-keep-not s gone (x ∷ xs) h = ground (arith, member-keep-not s gone xs h, eq_iff x s)

-- An update of a line's modifiers takes off every exclusion that it is told to remove, also one that
-- it is told to add; clears the spiciness and the notes if told to; and leaves the dish, its options
-- and its quantity alone.
pub change_line_lem :
    (change : ModifierChange) (entry : OrderItem)
    → let line = change_line change entry in
      ((s : String) → member s change.remove_exclusions ≡ true → member s line.exclusions ≡ false)
      × (change.clear_spicy ≡ true → line.spicy_level ≡ none)
      × (change.clear_notes ≡ true → line.notes ≡ none)
      × (line.item_id ≡ entry.item_id)
      × (line.options ≡ entry.options)
      × (line.quantity ≡ entry.quantity)
unfolding changed_notes
change_line_lem change entry = (
  λ s h.
      member-keep-not s change.remove_exclusions
        (if has_any change.exclusions
          then dedupe (entry.exclusions ++ change.exclusions)
          else entry.exclusions)
        h,
  λ h. ground arith,
  λ h. ground arith,
  refl,
  refl,
  refl,
)
