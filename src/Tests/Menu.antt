-- ===== src/Tests/Menu.antt =====
-- Dishes that are looked up, and the hours of a branch.
use order_agent.Prelude.{
  ◌≡◌, ◌⊎◌, refl, true, false, not, ◌&&◌, ◌||◌, none, some, List, [], ◌∷◌, any, map, All, arith,
}
use order_agent.Prelude.Int.{pos}
use order_agent.Prelude.Text.{position}
use order_agent.State.{MenuItem}
use order_agent.Menu.{
  Menu, Match, find_item_by_name, has_text, available_items, matches,
  get_available_items_by_category,
}
use order_agent.Menu.Find.{IsAnswer, IsMatch, find_item_by_name_lem}
use order_agent.Menu.Chosen.{find_items_in_text, dish}
use order_agent.Menu.Complete.{Meets, IsSeen}
use order_agent.Menu.Spans.{AreApart, find_items_in_text_lem}
use order_agent.Hours.{Slot, LocalTime, list_hours, closes_on, is_branch_open}
use order_agent.Hours.Intervals.{covers, is_branch_open-covers}

abbrev rice : MenuItem
rice = record {
  id = "rice";
  name = "叉烧饭";
  category = "饭";
  price = pos 45;
  base_price_minor = some (pos 4500);
  currency = "HKD";
  menu_item_db_id = some 11;
  menu_version_id = some 5;
  available = true;
  options = [];
  aliases = "叉烧" ∷ [];
}

abbrev tea : MenuItem
tea = record rice {
  id = "tea";
  name = "奶茶";
  category = "饮品";
  menu_item_db_id = some 12;
  aliases = [];
}

abbrev sold_out : MenuItem
sold_out = record rice { id = "cola"; name = "可乐"; available = false; aliases = [] }

abbrev pub menu : Menu
menu = record {
  items = rice ∷ sold_out ∷ tea ∷ [];
  categories = "饭" ∷ "饮品" ∷ [];
  category_aliases = ("饮品", "喝的" ∷ []) ∷ [];
  category_group_aliases = [];
  category_groups = [];
  safe_match_aliases = [];
}

tea_is_found : find_item_by_name menu "来杯奶茶和叉烧" ≡ some tea
unfolding find_item_by_name
tea_is_found = refl

-- The tea stands first in the text.
find_item_by_name_example :
    IsAnswer menu "来杯奶茶和叉烧" (λ item. item.currency ≡ "HKD") (find_item_by_name menu "来杯奶茶和叉烧")
find_item_by_name_example =
    find_item_by_name_lem menu "来杯奶茶和叉烧" (λ item. item.currency ≡ "HKD") (refl, (refl, (refl, tt)))

sold_out_is_not_found : find_item_by_name menu "可乐" ≡ none
unfolding find_item_by_name
sold_out_is_not_found = refl

both_are_found : find_items_in_text menu "叉烧饭和奶茶" ≡ rice ∷ tea ∷ []
unfolding find_items_in_text position matches
both_are_found = refl

find_items_in_text_example :
    (ms : List Match) × (find_items_in_text menu "叉烧饭和奶茶" ≡ map dish ms)
    × AreApart ms
    × All
        (λ m. ((m.item.currency ≡ "HKD") × (m.item.available ≡ true)) × IsMatch menu "叉烧饭和奶茶" m)
        ms
    × ((has_text "叉烧饭和奶茶" ≡ false)
        ⊎ All (IsSeen menu "叉烧饭和奶茶" (λ m. Meets m ms)) (available_items menu))
find_items_in_text_example =
    find_items_in_text_lem menu "叉烧饭和奶茶" (λ item. item.currency ≡ "HKD") (refl, (refl, (refl, tt)))

drinks_are_found : get_available_items_by_category menu "有什么喝的" ≡ tea ∷ []
unfolding get_available_items_by_category
drinks_are_found = refl

-- From eighteen o'clock to two, counted in hours.
abbrev night : Slot
night = record {
  branch_id = 2;
  weekday = 4;
  effective_date = none;
  start_time = 18;
  end_time = 2;
  is_closed = false;
}

-- One o'clock of the next morning.
abbrev late : LocalTime
late = record { date = 100; weekday = 5; current = 1 }

is_branch_open-covers_example : is_branch_open (night ∷ []) (some 2) late ≡ (
    not (any (closes_on 100) (list_hours 2 5 100 (night ∷ [])))
    && (any (covers 24 24 25) (list_hours 2 5 100 (night ∷ []))
        || any (covers 24 0 25) (list_hours 2 4 99 (night ∷ []))))
is_branch_open-covers_example =
    is_branch_open-covers 24 (night ∷ []) 2 late (omega arith) ((omega arith, omega arith), tt)

open_after_midnight : is_branch_open (night ∷ []) (some 2) late ≡ true
unfolding is_branch_open
open_after_midnight = refl
