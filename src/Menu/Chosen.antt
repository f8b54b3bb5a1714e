-- ===== src/Menu/Chosen.antt =====
-- `MenuService.find_items_in_text`: the dishes that a text names. The entries of `matches` and of
-- `occupied` are added together, so they are one list.
use order_agent.Prelude.{
  ◌+◌, Bool, ◌&&◌, ◌||◌, String, List, [], ◌∷◌, ◌++◌, ltb, any, map, if◌then◌else◌,
}
use order_agent.Prelude.Text.{str_eq}
use order_agent.State.{MenuItem}
use order_agent.Menu.{
  Menu, Match, available_items, has_text, matching_names, precedes, name_matches, foremost,
}

-- The `min` of a dish's matches.
abbrev pub earliest : List Match → List Match
earliest [] = []
earliest (m ∷ ms) = foremost m ms ∷ []

-- `positions`
unfoldable pub positions : Menu → String → List MenuItem → List Match
unfolding name_matches matching_names foremost
positions menu text [] = []
positions menu text (item ∷ items) =
    earliest (name_matches text item (matching_names menu item)) ++ positions menu text items

-- Before the first match that does not precede it: `sorted` keeps the order of equal keys.
abbrev pub insert_match : Match → List Match → List Match
insert_match m [] = m ∷ []
insert_match m (n ∷ ns) = if precedes n m then n ∷ insert_match m ns else m ∷ n ∷ ns

abbrev pub sort_matches : List Match → List Match
sort_matches [] = []
sort_matches (m ∷ ms) = insert_match m (sort_matches ms)

-- Whether a match overlaps one that was taken, or is of the same dish.
abbrev pub clashes : Match → Match → Bool
clashes m taken =
    ltb m.at (taken.at + taken.size) && ltb taken.at (m.at + m.size)
    || str_eq m.item.id taken.item.id

-- The loop over the sorted positions.
unfoldable pub choose_spans : List Match → List Match → List Match
choose_spans taken [] = taken
choose_spans taken (m ∷ ms) =
    choose_spans (if any (clashes m) taken then taken else taken ++ m ∷ []) ms

unfoldable pub chosen : Menu → String → List Match
unfolding choose_spans positions
chosen menu text =
    if has_text text
    then choose_spans [] (sort_matches (positions menu text (available_items menu)))
    else []

abbrev pub dish : Match → MenuItem
dish m = m.item

-- `find_items_in_text`
unfoldable pub find_items_in_text : Menu → String → List MenuItem
unfolding chosen
find_items_in_text menu text = map dish (chosen menu text)
