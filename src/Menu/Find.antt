-- ===== src/Menu/Find.antt =====
-- Which dish a name is taken for.
use order_agent.Prelude.{
  sym, Option, ◌≡◌, ◌⊎◌, refl, inl, inr, true, false, String, none, some, List, [], ◌∷◌, any, All,
  All-append, All-keep_passing, arith, if◌then◌else◌, Bool-cases, Option-cases,
}
use order_agent.Prelude.Text.{member, chars, position}
use order_agent.Prelude.Text.Membership.{All-member}
use order_agent.Persist.Database.{first}
use order_agent.State.{MenuItem}
use mathlib.Core.Path.{subst}
use order_agent.Menu.Names.{
  IsAbsent, matches-IsAbsent, IsForemost, names_of, IsBehind, IsUnnamed, matches-IsBehind,
  named-member, unnamed-All,
}
use order_agent.Menu.{
  Menu, Match, available_items, is_available, has_text, is_named, matching_names, precedes,
  name_match, name_matches, matches, foremost, foremost_of, find_item_by_name,
}

abbrev better : Match → Match → Match
better m best = if precedes m best then m else best

precedes-better : (m best c : Match) → precedes c best ≡ false → precedes c (better m best) ≡ false
precedes-better m best c h = ground arith

foremost-least :
    (best : Match) (ms : List Match) (c : Match)
    → precedes c best ≡ false
    → precedes c (foremost best ms) ≡ false
unfolding foremost
foremost-least best [] c h = h
foremost-least best (m ∷ ms) c h = foremost-least (better m best) ms c (precedes-better m best c h)

foremost-IsForemost : (best : Match) (ms : List Match) → IsForemost (foremost best ms) (best ∷ ms)
unfolding foremost
foremost-IsForemost best [] = (ground arith, tt)
foremost-IsForemost best (m ∷ ms) =
    let rest = foremost-IsForemost (better m best) ms in
    (
      foremost-least (better m best) ms best (ground arith),
      (foremost-least (better m best) ms m (ground arith), rest.1),
    )

pub foremost-All :
    (P : Match → Type 0) (best : Match) (ms : List Match) → P best → All P ms → P (foremost best ms)
unfolding foremost
foremost-All P best [] h hs = h
foremost-All P best (m ∷ ms) h hs = elim (Bool-cases (precedes m best)) [
  | inl earlier ↦ rw earlier (foremost-All P m ms hs.0 hs.1)
  | inr later ↦ rw later (foremost-All P best ms h hs.1)
]

-- A match is of a name of its dish, at the place where the name stands in the text.
abbrev pub IsMatch : Menu → String → Match → Type 0
IsMatch menu text m =
    (name : String) × (member name (matching_names menu m.item) ≡ true)
    × (has_text name ≡ true)
    × (position name text ≡ some m.at)
    × (m.size ≡ chars name)

-- The dish that is taken: one that has the text as a name, or else one with a name that stands in
-- the text, where the names of all the available dishes are behind it.
abbrev pub IsTaken : Menu → String → MenuItem → Type 0
IsTaken menu text item =
    (member text (names_of menu item) ≡ true)
    ⊎ (IsUnnamed menu text
        × (m : Match) × (m.item ≡ item)
        × IsMatch menu text m
        × All (λ other. All (IsBehind text m) (names_of menu other)) (available_items menu))

some_inj : {x item : MenuItem} → some x ≡ some item → x ≡ item
some_inj h = cc

module _ (menu : Menu) (text : String) (P : MenuItem → Type 0) where
  -- A match of a dish with `P`.
  abbrev pub IsGood : Match → Type 0
  IsGood m = P m.item × IsMatch menu text m

  abbrev AreNames : MenuItem → List String → Type 0
  AreNames item = All (λ name. member name (matching_names menu item) ≡ true)

  name_match-All :
      (item : MenuItem) (name : String)
      → P item
      → member name (matching_names menu item) ≡ true
      → All IsGood (name_match text item name)
  name_match-All item name p own = elim (Option-cases (position name text)) [
    | inl absent ↦ rw (All, absent) tt
    | inr (at, present) ↦ elim (Bool-cases (has_text name)) [
      | inl given ↦ rw (All, present, given) ((p, (name, own, given, present, refl)), tt)
      | inr blank ↦ rw (All, present, blank) tt
    ]
  ]

  pub name_matches-All :
      (item : MenuItem) (names : List String)
      → P item
      → AreNames item names
      → All IsGood (name_matches text item names)
  unfolding name_matches
  name_matches-All item [] p own = tt
  name_matches-All item (name ∷ names) p own =
      All-append IsGood (name_match text item name) (name_matches text item names)
        (name_match-All item name p own.0) (name_matches-All item names p own.1)

  matches-All : (items : List MenuItem) → All P items → All IsGood (matches menu text items)
  unfolding matches
  matches-All [] h = tt
  matches-All (item ∷ items) h =
      All-append IsGood (name_matches text item (matching_names menu item))
        (matches menu text items)
        (name_matches-All item (matching_names menu item) h.0
          (All-member (matching_names menu item)))
        (matches-All items h.1)

  first-All :
      (items : List MenuItem) {item : MenuItem}
      → All P items
      → first (is_named menu text) items ≡ some item
      → P item × (is_named menu text item ≡ true)
  unfolding first
  first-All [] h found = cc
  first-All (x ∷ items) {item} h found = elim (Bool-cases (is_named menu text x)) [
    | inl named ↦ rw (← some_inj (rw named at found)) (h.0, named)
    | inr other ↦ first-All items h.1 (rw other at found)
  ]

  foremost_of-IsTaken :
      (ms : List Match) {item : MenuItem}
      → All IsGood ms
      → foremost_of ms ≡ some item
      → P item × (m : Match) × (m.item ≡ item) × IsMatch menu text m × IsForemost m ms
  foremost_of-IsTaken [] h taken = cc
  foremost_of-IsTaken (m ∷ ms) {item} h taken =
      let good = foremost-All IsGood m ms h.0 h.1 in
      let same = some_inj taken in
      (rw (← same) good.0, foremost m ms, same, good.1, foremost-IsForemost m ms)

  any-first :
      (items : List MenuItem)
      → first (is_named menu text) items ≡ none
      → any (is_named menu text) items ≡ false
  unfolding first
  any-first [] h = refl
  any-first (x ∷ items) h = ground (arith, any-first items)

  find-IsTaken :
      All P (available_items menu)
      → has_text text ≡ true
      → {item : MenuItem} → find_item_by_name menu text ≡ some item
      → P item × IsTaken menu text item
  unfolding find_item_by_name
  find-IsTaken h given {item = item} taken =
      elim (Option-cases (first (is_named menu text) (available_items menu))) [
        | inr (named, there) ↦
            let good = first-All (available_items menu) h there in
            let same = some_inj (rw (find_item_by_name, given, there) at taken) in
            (rw (← same) good.0, inl (named-member menu text item (rw (← same) good.1)))
        | inl absent ↦
            let (good, m, same, is_match, is_foremost) =
              foremost_of-IsTaken (matches menu text (available_items menu))
                (matches-All (available_items menu) h)
                (rw (find_item_by_name, given, absent) at taken) in
            (
              good,
              inr (
                unnamed-All menu text (available_items menu) given
                    (any-first (available_items menu) absent),
                m,
                same,
                is_match,
                matches-IsBehind menu text m (available_items menu) is_foremost,
              ),
            )
      ]

find-has_text :
    (menu : Menu) (text : String) {item : MenuItem}
    → find_item_by_name menu text ≡ some item
    → has_text text ≡ true
unfolding find_item_by_name
find-has_text menu text taken = elim (Bool-cases (has_text text)) [
  | inl given ↦ given
  | inr blank ↦ cc (rw (find_item_by_name, blank) at taken)
]

foremost_of-none : (ms : List Match) → foremost_of ms ≡ none → ms ≡ []
foremost_of-none [] h = refl
foremost_of-none (m ∷ ms) h = cc

-- No name of any available dish stands in the text.
abbrev pub AreAbsent : Menu → String → Type 0
AreAbsent menu text =
    All (λ other. All (IsAbsent text) (names_of menu other)) (available_items menu)

none_is_named :
    (menu : Menu) (text : String)
    → has_text text ≡ true
    → find_item_by_name menu text ≡ none
    → IsUnnamed menu text × AreAbsent menu text
unfolding find_item_by_name
none_is_named menu text given h =
    elim (Option-cases (first (is_named menu text) (available_items menu))) [
      | inr (named, there) ↦ cc (rw (find_item_by_name, given, there) at h)
      | inl absent ↦ (
        unnamed-All menu text (available_items menu) given
            (any-first menu text (λ m. Unit {0}) (available_items menu) absent),
        matches-IsAbsent menu text (available_items menu) (
            foremost_of-none (matches menu text (available_items menu))
              (rw (find_item_by_name, given, absent) at h)),
      )
    ]

-- A dish that a name is taken for is available, and has what all of the menu's have.
pub find-some :
    (menu : Menu) (text : String) (P : MenuItem → Type 0) {item : MenuItem}
    → All P menu.items
    → find_item_by_name menu text ≡ some item
    → P item × (item.available ≡ true) × IsTaken menu text item
find-some menu text P h taken =
    let ((good, here), is_taken) =
      find-IsTaken menu text (λ item. P item × (item.available ≡ true))
        (All-keep_passing P is_available menu.items h) (find-has_text menu text taken) taken in
    (good, here, is_taken)

-- What may be answered: a dish that is taken, or none, where the text is empty or names no dish.
abbrev pub IsAnswer : Menu → String → (MenuItem → Type 0) → Option MenuItem → Type 0
IsAnswer menu text P (some item) = P item × (item.available ≡ true) × IsTaken menu text item
IsAnswer menu text P none = (has_text text ≡ false) ⊎ (IsUnnamed menu text × AreAbsent menu text)

-- The dish that a name is taken for is one of the menu's, so it has what they all have, and it is
-- available. The text is a name of it; or the text is no available dish's name, and one of the dish's
-- names stands in the text, and no name of an available dish stands in the text before it, or at the
-- same place and is longer. The names of a dish are its own, its aliases and the menu's safe ones.
-- Where no dish is answered, the text is empty, or it is no available dish's name and no such name
-- stands in it.
pub find_item_by_name_lem :
    (menu : Menu) (text : String) (P : MenuItem → Type 0)
    → All P menu.items
    → IsAnswer menu text P (find_item_by_name menu text)
find_item_by_name_lem menu text P h = elim (Option-cases (find_item_by_name menu text)) [
  | inr (item, taken) ↦ subst (IsAnswer menu text P) (sym taken) (find-some menu text P h taken)
  | inl absent ↦ subst (IsAnswer menu text P) (sym absent) (elim (Bool-cases (has_text text)) [
    | inr blank ↦ inl blank
    | inl given ↦ inr (none_is_named menu text given absent)
  ])
]
