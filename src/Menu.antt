-- ===== src/Menu.antt =====
-- `MenuService` of backend/app/services/menu_service.py: the dishes and categories that were read for
-- a branch, and the look-ups of a text among them. The entries of a dict are a list in the order of
-- insertion. The look-ups that only recommendations use are left out.
pub mod Names
pub mod Find
pub mod Chosen
pub mod Complete
pub mod Spans
use order_agent.Prelude.{
  ℕ, ◌+◌, Bool, true, false, not, ◌&&◌, ◌||◌, String, Option, none, some, List, [], ◌∷◌, ◌++◌, ◌==◌,
  ltb, any, keep, map, if◌then◌else◌,
}
use order_agent.Prelude.Int.{ℤ, ltb_ℤ}
use order_agent.Prelude.Text.{str_eq, member, is_in, chars, position}
use order_agent.Persist.Database.{first}
use order_agent.State.{MenuItem}

pub record Menu : Type 0 where
  pub items : List MenuItem
  pub categories : List String
  pub category_aliases : List (String × List String)
  pub category_group_aliases : List (String × List String)
  pub category_groups : List (String × List String)
  pub safe_match_aliases : List (String × List String)

-- `dict.get(key, [])`
unfoldable pub entry : String → List (String × List String) → List String
entry key [] = []
entry key (e ∷ es) = let rest = entry key es in if str_eq e.0 key then e.1 else rest

abbrev pub is_available : MenuItem → Bool
is_available item = item.available

-- `_available_items`
abbrev pub available_items : Menu → List MenuItem
available_items menu = keep is_available menu.items

-- `_matching_names`
unfoldable pub matching_names : Menu → MenuItem → List String
unfolding entry
matching_names menu item = item.name ∷ (item.aliases ++ entry item.id menu.safe_match_aliases)

-- Python's truth of a text.
abbrev pub has_text : String → Bool
has_text text = not (str_eq text "")

abbrev pub is_exactly : String → String → Bool
is_exactly text name = has_text name && str_eq name text

-- Whether one of the dish's names is the text.
abbrev pub is_named : Menu → String → MenuItem → Bool
is_named menu text item = any (is_exactly text) (matching_names menu item)

-- A dish whose name stands in a text: the position of the name, its length, and the dish.
pub record Match : Type 0 where
  pub at : ℕ
  pub size : ℕ
  pub item : MenuItem

-- `sorted` puts `a` before `b`: by position, and at one position the longer name first.
abbrev pub precedes : Match → Match → Bool
precedes a b = ltb a.at b.at || a.at == b.at && ltb b.size a.size

-- The match of one name.
abbrev pub name_match : String → MenuItem → String → List Match
name_match text item name = elim (position name text) [
  | none ↦ []
  | some p ↦ if has_text name then record { at = p; size = chars name; item = item } ∷ [] else []
]

unfoldable pub name_matches : String → MenuItem → List String → List Match
unfolding position
name_matches text item [] = []
name_matches text item (name ∷ names) = name_match text item name ++ name_matches text item names

-- `matches`
unfoldable pub matches : Menu → String → List MenuItem → List Match
unfolding name_matches matching_names
matches menu text [] = []
matches menu text (item ∷ items) =
    name_matches text item (matching_names menu item) ++ matches menu text items

-- The first of a stable sort.
unfoldable pub foremost : Match → List Match → Match
foremost best [] = best
foremost best (m ∷ ms) = foremost (if precedes m best then m else best) ms

abbrev pub foremost_of : List Match → Option MenuItem
foremost_of [] = none
foremost_of (m ∷ ms) = some (foremost m ms).item

-- `find_item_by_name` of a text; of `None` it is that of the empty text.
unfoldable pub find_item_by_name : Menu → String → Option MenuItem
unfolding first matches foremost
find_item_by_name menu text =
    if not (has_text text) then none else elim (first (is_named menu text) (available_items menu)) [
      | some item ↦ some item
      | none ↦ foremost_of (matches menu text (available_items menu))
    ]

-- `matching_names_for_item`
unfoldable pub matching_names_for_item : Menu → String → List String
unfolding find_item_by_name matching_names
matching_names_for_item menu name = elim (find_item_by_name menu name) [
  | none ↦ []
  | some item ↦ matching_names menu item
]

-- `get_item_price`
unfoldable pub get_item_price : Menu → String → Option ℤ
unfolding find_item_by_name
get_item_price menu name = elim (find_item_by_name menu name) [
  | none ↦ none
  | some item ↦ some item.price
]

-- `get_item_price_minor`
unfoldable pub get_item_price_minor : Menu → String → Option ℤ
unfolding find_item_by_name
get_item_price_minor menu name = elim (find_item_by_name menu name) [
  | none ↦ none
  | some item ↦ item.base_price_minor
]

-- `get_item_options`
unfoldable pub get_item_options : Menu → String → List String
unfolding find_item_by_name
get_item_options menu name = elim (find_item_by_name menu name) [
  | none ↦ []
  | some item ↦ item.options
]

-- `supports_option`
unfoldable pub supports_option : Menu → String → String → Bool
unfolding find_item_by_name
supports_option menu name option = elim (find_item_by_name menu name) [
  | none ↦ false
  | some item ↦ member option item.options
]

-- `get_items_under_budget`
unfoldable pub get_items_under_budget : Menu → ℤ → List MenuItem
get_items_under_budget menu budget =
    keep (λ item. not (ltb_ℤ budget item.price)) (available_items menu)

abbrev pub stands_in : String → String → Bool
stands_in text alias = is_in alias text

-- The key of the first entry one of whose aliases stands in a text.
unfoldable pub find_by_alias : String → List (String × List String) → Option String
find_by_alias text [] = none
find_by_alias text (e ∷ es) =
    let rest = find_by_alias text es in if any (stands_in text) e.1 then some e.0 else rest

-- `find_category_by_alias`
unfoldable pub find_category_by_alias : Menu → String → Option String
unfolding find_by_alias
find_category_by_alias menu text =
    if has_text text then find_by_alias text menu.category_aliases else none

-- `find_category_group_by_alias`
unfoldable pub find_category_group_by_alias : Menu → String → Option String
unfolding find_by_alias
find_category_group_by_alias menu text =
    if has_text text then find_by_alias text menu.category_group_aliases else none

-- `resolved or default`; the keys of the dicts are not empty.
abbrev or_text : Option String → String → String
or_text none default = default
or_text (some text) default = if has_text text then text else default

-- `get_available_items_by_category`, and `get_items_by_category`, which only calls it.
unfoldable pub get_available_items_by_category : Menu → String → List MenuItem
unfolding find_category_by_alias
get_available_items_by_category menu category =
    let resolved = or_text (find_category_by_alias menu category) category in
    keep (λ item. str_eq item.category resolved) (available_items menu)

resolve_in : String → List (String × List String) → Option String
resolve_in group [] = none
resolve_in group (e ∷ es) =
    let rest = resolve_in group es in
    if str_eq group e.0 || member group e.1 then some e.0 else rest

-- `_resolve_category_group`
unfoldable pub resolve_category_group : Menu → String → Option String
unfolding resolve_in
resolve_category_group menu group =
    if has_text group then resolve_in group menu.category_group_aliases else none

-- `get_categories_by_group`
unfoldable pub get_categories_by_group : Menu → String → List String
unfolding resolve_category_group entry
get_categories_by_group menu group =
    entry (or_text (resolve_category_group menu group) group) menu.category_groups

-- `get_items_by_category_group`
unfoldable pub get_items_by_category_group : Menu → String → List MenuItem
unfolding get_categories_by_group
get_items_by_category_group menu group =
    let categories = get_categories_by_group menu group in
    keep (λ item. member item.category categories) (available_items menu)
