-- ===== src/Publishing.antt =====
-- Menu versions and their publication: `MenuManagementService` of backend/app/services/
-- menu_management_service.py, with the queries of backend/app/repositories/menu_repository.py.
pub mod Single
use order_agent.Prelude.{
  ℕ, ◌+◌, max, Bool, true, false, not, ◌&&◌, Option, none, some, List, [], ◌∷◌, ◌==◌, any, map,
  if◌then◌else◌,
}
use order_agent.Errors.{Result, ok, err, ◌>>=◌, ◌>>◌, raise_if, domain_error, menu_publish_conflict}
use order_agent.Persist.Database.{first}

pub data VersionStatus : Type 0 where
  draft published archived : VersionStatus

-- `MenuVersion`
pub record MenuVersion : Type 0 where
  pub id : ℕ
  pub restaurant_id : ℕ
  pub version_number : ℕ
  pub status : VersionStatus
  pub published_at : Option ℕ
  pub effective_at : Option ℕ

-- `Branch`; `is_active` is whether its status is ACTIVE and it is not deleted.
pub record Branch : Type 0 where
  pub id : ℕ
  pub restaurant_id : ℕ
  pub is_active : Bool
  pub active_menu_version_id : Option ℕ

pub record MenuRows : Type 0 where
  pub versions : List MenuVersion
  pub branches : List Branch

abbrev pub is_published : VersionStatus → Bool
is_published VersionStatus.published = true
is_published _ = false

abbrev pub is_draft : VersionStatus → Bool
is_draft VersionStatus.draft = true
is_draft _ = false

abbrev pub has_version_id : ℕ → MenuVersion → Bool
has_version_id id version = version.id == id

-- `get_version`
abbrev pub get_version : ℕ → List MenuVersion → Option MenuVersion
get_version id = first (has_version_id id)

-- `next_version_number`
unfoldable pub next_version_number : ℕ → List MenuVersion → ℕ
next_version_number restaurant_id [] = 1
next_version_number restaurant_id (v ∷ vs) =
    let rest = next_version_number restaurant_id vs in
    if v.restaurant_id == restaurant_id then max (v.version_number + 1) rest else rest

-- `create_draft`, where `id` is that of the new row.
unfoldable pub create_draft : ℕ → ℕ → MenuRows → MenuVersion × MenuRows
unfolding next_version_number
create_draft restaurant_id id rows =
    let version : MenuVersion = record {
      id = id;
      restaurant_id = restaurant_id;
      version_number = next_version_number restaurant_id rows.versions;
      status = VersionStatus.draft;
      published_at = none;
      effective_at = none;
    } in
    (version, record rows { versions = version ∷ rows.versions })

-- The call of `get_version` and the test of its result.
abbrev pub own_version : ℕ → Option MenuVersion → Result MenuVersion
own_version restaurant_id none = err (domain_error "MENU_VERSION_NOT_FOUND")
own_version restaurant_id (some version) =
    if version.restaurant_id == restaurant_id
    then ok version
    else err (domain_error "MENU_VERSION_NOT_FOUND")

-- The WHERE of the version that is archived.
abbrev pub is_current_other : ℕ → ℕ → MenuVersion → Bool
is_current_other restaurant_id id v =
    v.restaurant_id == restaurant_id && is_published v.status && not (v.id == id)

-- The UPDATE that archives a version: its WHERE, and the row.
abbrev pub is_archivable : ℕ → MenuVersion → Bool
is_archivable id v = v.id == id && is_published v.status

abbrev pub archive : ℕ → MenuVersion → MenuVersion
archive id v = if is_archivable id v then record v { status = VersionStatus.archived } else v

-- The version's own row.
abbrev pub publish_version : ℕ → ℕ → MenuVersion → MenuVersion
publish_version now id v =
    if v.id == id
    then record v {
      status = VersionStatus.published;
      published_at = some now;
      effective_at = elim v.effective_at [ none ↦ some now | some at ↦ some at ];
    }
    else v

-- The UPDATE of the restaurant's active branches.
abbrev pub activate : ℕ → ℕ → Branch → Branch
activate restaurant_id id branch =
    if branch.restaurant_id == restaurant_id && branch.is_active
    then record branch { active_menu_version_id = some id }
    else branch

-- The first part of `publish_for_restaurant`: the current version is archived.
unfoldable pub archive_current : ℕ → ℕ → List MenuVersion → Result (List MenuVersion)
unfolding first
archive_current restaurant_id id versions =
    elim (first (is_current_other restaurant_id id) versions) [
      | none ↦ ok versions
      | some current ↦ do
        raise_if (not (any (is_archivable current.id) versions)) menu_publish_conflict
        ok (map (archive current.id) versions)
    ]

-- `publish_for_restaurant`, at the time `now`.
unfoldable pub publish_for_restaurant : ℕ → ℕ → ℕ → MenuRows → Result MenuRows
unfolding archive_current
publish_for_restaurant now restaurant_id id rows = do
  versions ← archive_current restaurant_id id rows.versions
  ok (record {
    versions = map (publish_version now id) versions;
    branches = map (activate restaurant_id id) rows.branches;
  })

-- `publish`
unfoldable pub publish : ℕ → ℕ → ℕ → MenuRows → Result MenuRows
unfolding publish_for_restaurant first
publish now restaurant_id id rows = do
  version ← own_version restaurant_id (get_version id rows.versions)
  raise_if (not (is_draft version.status)) (domain_error "PUBLISHED_MENU_IMMUTABLE")
  publish_for_restaurant now restaurant_id id rows

-- `assert_mutable`
unfoldable pub assert_mutable : ℕ → MenuRows → Result (Unit {0})
unfolding first
assert_mutable id rows = elim (get_version id rows.versions) [
  | none ↦ err (domain_error "MENU_VERSION_NOT_FOUND")
  | some version ↦
      raise_if (not (is_draft version.status)) (domain_error "PUBLISHED_MENU_IMMUTABLE")
]
