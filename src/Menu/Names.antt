-- ===== src/Menu/Names.antt =====
-- The names of a dish, and the matches that no name of a dish comes before.
use order_agent.Prelude.{
  sym, All-imp, Option-cases, [], none, ℕ, ◌<◌, ◌≤◌, ◌++◌, All-split, eq_iff, ◌≡◌, ◌⊎◌, refl, inl,
  inr, true, false, String, some, List, [], ◌∷◌, any, All, arith, Bool-cases,
}
use mathlib.Core.Path.{subst}
use order_agent.Prelude.Text.{member, chars, position, str_eq}
use order_agent.State.{MenuItem}
use order_agent.Menu.{
  Menu, Match, available_items, has_text, is_exactly, entry, is_named, matching_names, precedes,
  name_match, name_matches, matches,
}

-- No match of the list precedes `m`.
abbrev pub IsForemost : Match → List Match → Type 0
IsForemost m = All (λ c. precedes c m ≡ false)

-- The names of a dish: its own, its aliases, and the safe ones that the menu lists for it.
abbrev pub names_of : Menu → MenuItem → List String
names_of menu item = item.name ∷ (item.aliases ++ entry item.id menu.safe_match_aliases)

-- A name does not stand in the text before the match, and is not longer at the same place.
abbrev pub IsBehind : String → Match → String → Type 0
IsBehind text m name =
    (p : ℕ)
    → has_text name ≡ true
    → position name text ≡ some p
    → (m.at < p) ⊎ ((m.at ≡ p) × (chars name ≤ m.size))

-- No available dish has the text as a name.
abbrev pub IsUnnamed : Menu → String → Type 0
IsUnnamed menu text = All (λ item. member text (names_of menu item) ≡ false) (available_items menu)

-- A name that is not empty does not stand in the text.
abbrev pub IsAbsent : String → String → Type 0
IsAbsent text name = has_text name ≡ true → position name text ≡ none

-- The match of a name of a dish has `P`, if there is one.
abbrev MatchHas : (Match → Type 0) → String → MenuItem → String → Type 0
MatchHas P text item name =
    (p : ℕ)
    → has_text name ≡ true
    → position name text ≡ some p
    → P (record { at = p; size = chars name; item = item })

name_match-single :
    (text : String) (item : MenuItem) (name : String) (p : ℕ)
    → has_text name ≡ true
    → position name text ≡ some p
    → name_match text item name ≡ (record { at = p; size = chars name; item = item }) ∷ []
name_match-single text item name p given stands = rw (name_match, stands, given) refl

module _ (P : Match → Type 0) (text : String) where
  name_matches-MatchHas :
      (item : MenuItem) (names : List String)
      → All P (name_matches text item names)
      → All (MatchHas P text item) names
  unfolding name_matches
  name_matches-MatchHas item [] h = tt
  name_matches-MatchHas item (name ∷ names) h =
      let (now, later) = All-split P (name_match text item name) (name_matches text item names) h in
      (
        λ p given stands. (subst (All P) (name_match-single text item name p given stands) now).0,
        name_matches-MatchHas item names later,
      )

  matches-MatchHas :
      (menu : Menu) (items : List MenuItem)
      → All P (matches menu text items)
      → All (λ other. All (MatchHas P text other) (names_of menu other)) items
  unfolding matches matching_names
  matches-MatchHas menu [] h = tt
  matches-MatchHas menu (item ∷ items) h =
      let (now, later) =
        All-split P (name_matches text item (matching_names menu item)) (matches menu text items)
          h in
      (name_matches-MatchHas item (matching_names menu item) now, matches-MatchHas menu items later)

MatchHas-IsBehind :
    (text : String) (m : Match) (item : MenuItem) (name : String)
    → MatchHas (λ c. precedes c m ≡ false) text item name
    → IsBehind text m name
MatchHas-IsBehind text m item name kept p given stands = ground (arith, kept p given stands)

pub matches-IsBehind :
    (menu : Menu) (text : String) (m : Match) (items : List MenuItem)
    → IsForemost m (matches menu text items)
    → All (λ other. All (IsBehind text m) (names_of menu other)) items
matches-IsBehind menu text m items h =
    All-imp (λ other. All-imp (MatchHas-IsBehind text m other) (names_of menu other)) items
      (matches-MatchHas (λ c. precedes c m ≡ false) text menu items h)

MatchHas-IsAbsent :
    (text : String) (item : MenuItem) (name : String)
    → MatchHas (λ m. ⊥) text item name
    → IsAbsent text name
MatchHas-IsAbsent text item name none_has given = elim (Option-cases (position name text)) [
  | inl absent ↦ absent
  | inr (p, stands) ↦ absurd (none_has p given stands)
]

pub name_matches-IsAbsent :
    (menu : Menu) (text : String) (item : MenuItem)
    → name_matches text item (matching_names menu item) ≡ []
    → All (IsAbsent text) (names_of menu item)
unfolding matching_names
name_matches-IsAbsent menu text item h =
    All-imp (MatchHas-IsAbsent text item) (names_of menu item) (
      name_matches-MatchHas (λ m. ⊥) text item (matching_names menu item)
        (subst (All (λ m. ⊥)) (sym h) tt))

pub matches-IsAbsent :
    (menu : Menu) (text : String) (items : List MenuItem)
    → matches menu text items ≡ []
    → All (λ other. All (IsAbsent text) (names_of menu other)) items
matches-IsAbsent menu text items h =
    All-imp (λ other. All-imp (MatchHas-IsAbsent text other) (names_of menu other)) items
      (matches-MatchHas (λ m. ⊥) text menu items (subst (All (λ m. ⊥)) (sym h) tt))

is_exactly-member :
    (text : String) (names : List String)
    → any (is_exactly text) names ≡ true
    → member text names ≡ true
is_exactly-member text [] h = cc
is_exactly-member text (name ∷ names) h = ground (arith, is_exactly-member text names)

is_exactly_text :
    (text name : String)
    → has_text text ≡ true
    → is_exactly text name ≡ false
    → str_eq name text ≡ false
is_exactly_text text name given h = elim (Bool-cases (str_eq name text)) [
  | inr other ↦ other
  | inl same ↦
      let has : has_text name ≡ true = rw ((eq_iff name text).0 same) given in
      ground (arith, has, same, h)
]

not_exactly-member :
    (text : String) (names : List String)
    → has_text text ≡ true
    → any (is_exactly text) names ≡ false
    → member text names ≡ false
not_exactly-member text [] given h = refl
not_exactly-member text (name ∷ names) given h =
    ground (arith, is_exactly_text text name given, not_exactly-member text names given)

pub named-member :
    (menu : Menu) (text : String) (item : MenuItem)
    → is_named menu text item ≡ true
    → member text (names_of menu item) ≡ true
unfolding matching_names
named-member menu text item h = is_exactly-member text (matching_names menu item) h

pub unnamed-All :
    (menu : Menu) (text : String) (items : List MenuItem)
    → has_text text ≡ true
    → any (is_named menu text) items ≡ false
    → All (λ item. member text (names_of menu item) ≡ false) items
unfolding matching_names
unnamed-All menu text [] given h = tt
unnamed-All menu text (item ∷ items) given h = (
  not_exactly-member text (matching_names menu item) given (ground (arith, h)),
  unnamed-All menu text items given (ground (arith, h)),
)
