-- ===== src/Tests/Publishing.antt =====
-- A menu that takes the place of another.
use order_agent.Prelude.{◌≤◌, ◌≡◌, refl, true, none, some, [], ◌∷◌, any, map, arith}
use order_agent.Errors.{ok, err, domain_error}
use order_agent.Publishing.{
  MenuVersion, Branch, MenuRows, draft, published, archived, publish, create_draft, activate,
  assert_mutable,
}
use order_agent.Publishing.Single.{count, is_published_of, is_published_as, publish_lem}

abbrev old_menu : MenuVersion
old_menu = record {
  id = 5;
  restaurant_id = 1;
  version_number = 1;
  status = published;
  published_at = some 10;
  effective_at = some 10;
}

abbrev new_menu : MenuVersion
new_menu = record {
  id = 6;
  restaurant_id = 1;
  version_number = 2;
  status = draft;
  published_at = none;
  effective_at = none;
}

abbrev open_branch : Branch
open_branch = record {
  id = 2;
  restaurant_id = 1;
  is_active = true;
  active_menu_version_id = some 5;
}

abbrev before : MenuRows
before = record { versions = old_menu ∷ []; branches = open_branch ∷ [] }

abbrev drafted : MenuRows
drafted = record before { versions = new_menu ∷ old_menu ∷ [] }

new_menu_is_drafted : create_draft 1 6 before ≡ (new_menu, drafted)
unfolding create_draft
new_menu_is_drafted = refl

abbrev after : MenuRows
after = record {
  versions =
      record new_menu { status = published; published_at = some 20; effective_at = some 20 }
      ∷ record old_menu { status = archived }
      ∷ [];
  branches = record open_branch { active_menu_version_id = some 6 } ∷ [];
}

new_menu_is_published : publish 20 1 6 drafted ≡ ok after
unfolding publish
new_menu_is_published = refl

publish_lem_example :
    (count (is_published_of 1) after.versions ≤ 1)
    × (any (is_published_as 1 6) after.versions ≡ true)
    × (after.branches ≡ map (activate 1 6) drafted.branches)
publish_lem_example =
    publish_lem 20 1 6 1 drafted (refl, (refl, tt)) (omega arith) new_menu_is_published

old_menu_is_immutable : assert_mutable 5 drafted ≡ err (domain_error "PUBLISHED_MENU_IMMUTABLE")
unfolding assert_mutable
old_menu_is_immutable = refl
