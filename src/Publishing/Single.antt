-- ===== src/Publishing/Single.antt =====
-- A restaurant has at most one published menu.
use order_agent.Prelude.{
  ℕ, suc, ◌+◌, ◌≤◌, ◌≡◌, refl, ap, inl, inr, Bool, true, false, not, ◌&&◌, ◌||◌, Option, none, some,
  List, [], ◌∷◌, ◌==◌, any, map, All, arith, if◌then◌else◌, Bool-cases, Option-cases,
}
use order_agent.Errors.{ok, bind_parts, guard_parts, menu_publish_conflict}
use order_agent.Persist.Database.{first, first-test}
use order_agent.Publishing.{
  MenuVersion, MenuRows, is_published, is_draft, has_version_id, get_version, own_version,
  is_current_other, is_archivable, archive, publish_version, activate, archive_current,
  publish_for_restaurant, publish,
}

-- How many versions pass.
abbrev pub count : (MenuVersion → Bool) → List MenuVersion → ℕ
count p [] = 0
count p (v ∷ vs) = let rest = count p vs in if p v then suc rest else rest

abbrev pub is_published_of : ℕ → MenuVersion → Bool
is_published_of restaurant_id v = v.restaurant_id == restaurant_id && is_published v.status

abbrev pub HaveUniqueIds : List MenuVersion → Type 0
HaveUniqueIds [] = Unit
HaveUniqueIds (v ∷ vs) = (any (has_version_id v.id) vs ≡ false) × HaveUniqueIds vs

count-any : (p : MenuVersion → Bool) (vs : List MenuVersion) → any p vs ≡ false → count p vs ≡ 0
count-any p [] h = refl
count-any p (v ∷ vs) h = ground (arith, count-any p vs)

count_unique :
    (id : ℕ) (vs : List MenuVersion) → HaveUniqueIds vs → count (has_version_id id) vs ≤ 1
count_unique id [] h = omega arith
count_unique id (v ∷ vs) h =
    ground (arith, count_unique id vs h.1, count-any (has_version_id id) vs, h.0)

abbrev If : ℕ → (MenuVersion → Bool) → MenuVersion → Type 0
If id q v = (not (v.id == id) || q v) ≡ true

any-All :
    (id : ℕ) (q : MenuVersion → Bool) (vs : List MenuVersion)
    → any (has_version_id id) vs ≡ false
    → All (If id q) vs
any-All id q [] h = tt
any-All id q (v ∷ vs) h = (ground (arith, h), any-All id q vs (ground (arith, h)))

first-any :
    (p : MenuVersion → Bool) (vs : List MenuVersion) {c : MenuVersion}
    → first p vs ≡ some c
    → any (has_version_id c.id) vs ≡ true
unfolding first
first-any p [] h = cc
first-any p (v ∷ vs) {c} h = ground (arith, first-any p vs {c = c})

any-has_version_id :
    {a b : ℕ}
    → a ≡ b
    → (vs : List MenuVersion) → any (has_version_id a) vs ≡ false
    → any (has_version_id b) vs ≡ false
any-has_version_id same vs h = rw (← same) h

found_inj : {v c : MenuVersion} → some v ≡ some c → v ≡ c
found_inj h = cc

any-same :
    (a b : ℕ) (vs : List MenuVersion)
    → any (has_version_id a) vs ≡ false
    → any (has_version_id b) vs ≡ true
    → (a == b) ≡ false
any-same a b [] h k = cc
any-same a b (v ∷ vs) h k = ground (arith, any-same a b vs)

-- What holds of a row that is found holds of every row with its id.
first-All :
    (p q : MenuVersion → Bool) (vs : List MenuVersion) {c : MenuVersion}
    → HaveUniqueIds vs
    → first p vs ≡ some c
    → q c ≡ true
    → All (If c.id q) vs
unfolding first
first-All p q [] u h k = cc
first-All p q (v ∷ vs) {c} u h k = elim (Bool-cases (p v)) [
  | inl hit ↦
      let same = found_inj (rw hit at h) in
      (
        ground (arith, ap q same, k),
        any-All c.id q vs (any-has_version_id (ap (λ (m : MenuVersion). m.id) same) vs u.0),
      )
  | inr miss ↦ (
    ground (arith, u.0, any-same v.id c.id vs, first-any p vs (rw miss at h)),
    first-All p q vs u.1 (rw miss at h) k,
  )
]

-- A row of the id `id` belongs to the restaurant, and is not published.
abbrev is_own_draft : ℕ → MenuVersion → Bool
is_own_draft restaurant_id v = v.restaurant_id == restaurant_id && not (is_published v.status)

module _ (restaurant_id id now r : ℕ) where
  count-publish :
      (vs : List MenuVersion)
      → All (If id (is_own_draft restaurant_id)) vs
      → count (is_published_of r) (map (publish_version now id) vs)
        ≡ count (is_published_of r) vs
          + (if r == restaurant_id then count (has_version_id id) vs else 0)
  count-publish [] h = ground arith
  count-publish (v ∷ vs) h = ground (arith, count-publish vs h.1, h.0)

  count-archive :
      (c : ℕ) (vs : List MenuVersion)
      → All (If c (λ v. v.restaurant_id == restaurant_id)) vs
      → count (is_published_of r) (map (archive c) vs)
          + (if r == restaurant_id then count (is_archivable c) vs else 0)
        ≡ count (is_published_of r) vs
  count-archive c [] h = ground arith
  count-archive c (v ∷ vs) h = ground (arith, count-archive c vs h.1, h.0)

count-current :
    (restaurant_id id : ℕ) (vs : List MenuVersion)
    → All (If id (is_own_draft restaurant_id)) vs
    → first (is_current_other restaurant_id id) vs ≡ none
    → count (is_published_of restaurant_id) vs ≡ 0
unfolding first
count-current restaurant_id id [] h k = refl
count-current restaurant_id id (v ∷ vs) h k =
    ground (arith, count-current restaurant_id id vs h.1, h.0)

count-any-true : (p : MenuVersion → Bool) (vs : List MenuVersion) → any p vs ≡ true → 1 ≤ count p vs
count-any-true p [] h = cc
count-any-true p (v ∷ vs) h = ground (arith, count-any-true p vs)

archive-If :
    (c id restaurant_id : ℕ) (vs : List MenuVersion)
    → All (If id (is_own_draft restaurant_id)) vs
    → All (If id (is_own_draft restaurant_id)) (map (archive c) vs)
archive-If c id restaurant_id [] h = tt
archive-If c id restaurant_id (v ∷ vs) h =
    (ground (arith, h.0), archive-If c id restaurant_id vs h.1)

count-archive_id :
    (c id : ℕ) (vs : List MenuVersion)
    → count (has_version_id id) (map (archive c) vs) ≡ count (has_version_id id) vs
count-archive_id c id [] = refl
count-archive_id c id (v ∷ vs) = ground (arith, count-archive_id c id vs)

rows_inj : {a b : MenuRows} → ok a ≡ ok b → a ≡ b
rows_inj h = cc

ok_inj : {vs vs' : List MenuVersion} → ok vs ≡ ok vs' → vs ≡ vs'
ok_inj h = cc

module _ (restaurant_id id r : ℕ) where
  -- What is left once the current version, if there is one, was archived.
  abbrev IsArchived : List MenuVersion → List MenuVersion → Type 0
  IsArchived vs vs' =
      All (If id (is_own_draft restaurant_id)) vs'
      × (count (has_version_id id) vs' ≡ count (has_version_id id) vs)
      × (count (is_published_of r) vs' ≤ (if r == restaurant_id then 0 else 1))

  kept-IsArchived :
      (vs : List MenuVersion)
      → All (If id (is_own_draft restaurant_id)) vs
      → first (is_current_other restaurant_id id) vs ≡ none
      → count (is_published_of r) vs ≤ 1
      → IsArchived vs vs
  kept-IsArchived vs own absent single =
      (own, refl, ground (arith, count-current restaurant_id id vs own absent, single))

  archive-IsArchived :
      (vs : List MenuVersion) {c : MenuVersion}
      → HaveUniqueIds vs
      → All (If id (is_own_draft restaurant_id)) vs
      → first (is_current_other restaurant_id id) vs ≡ some c
      → any (is_archivable c.id) vs ≡ true
      → count (is_published_of r) vs ≤ 1
      → IsArchived vs (map (archive c.id) vs)
  archive-IsArchived vs {c} unique own there some_row single =
      let of_restaurant =
        first-All (is_current_other restaurant_id id) (λ v. v.restaurant_id == restaurant_id) vs
          unique there (ground (arith, first-test (is_current_other restaurant_id id) vs there)) in
      (
        archive-If c.id id restaurant_id vs own,
        count-archive_id c.id id vs,
        ground (
          arith,
          count-archive restaurant_id id 0 r c.id vs of_restaurant,
          count-any-true (is_archivable c.id) vs some_row,
          single,
        ),
      )

  archive_current-IsArchived :
      (vs : List MenuVersion) {vs' : List MenuVersion}
      → HaveUniqueIds vs
      → All (If id (is_own_draft restaurant_id)) vs
      → count (is_published_of r) vs ≤ 1
      → archive_current restaurant_id id vs ≡ ok vs'
      → IsArchived vs vs'
  unfolding archive_current
  archive_current-IsArchived vs unique own single h =
      elim (Option-cases (first (is_current_other restaurant_id id) vs)) [
        | inl absent ↦
            rw (← ok_inj (rw (archive_current, absent) at h)) (kept-IsArchived vs own absent single)
        | inr (c, there) ↦
            let (some_row, archived) =
              guard_parts (not (any (is_archivable c.id) vs)) menu_publish_conflict _
                (rw (archive_current, there) at h) in
            rw (← ok_inj archived)
              (archive-IsArchived vs unique own there (ground (arith, some_row)) single)
      ]

All-If :
    (a b : ℕ) (q : MenuVersion → Bool) (vs : List MenuVersion)
    → (a == b) ≡ true
    → All (If a q) vs
    → All (If b q) vs
All-If a b q [] same h = tt
All-If a b q (v ∷ vs) same h = (ground (arith, h.0, same), All-If a b q vs same h.1)

-- Whether a version is the restaurant's published one, and has the id.
abbrev pub is_published_as : ℕ → ℕ → MenuVersion → Bool
is_published_as restaurant_id id v = is_published_of restaurant_id v && v.id == id

any-publish :
    (now restaurant_id id : ℕ) (vs : List MenuVersion)
    → All (If id (is_own_draft restaurant_id)) vs
    → any (has_version_id id) vs ≡ true
    → any (is_published_as restaurant_id id) (map (publish_version now id) vs) ≡ true
any-publish now restaurant_id id [] own h = cc
any-publish now restaurant_id id (v ∷ vs) own h =
    ground (arith, own.0, any-publish now restaurant_id id vs own.1)

any-count :
    (id : ℕ) (vs vs' : List MenuVersion)
    → count (has_version_id id) vs' ≡ count (has_version_id id) vs
    → any (has_version_id id) vs ≡ true
    → any (has_version_id id) vs' ≡ true
any-count id vs vs' same h = ground (
  arith,
  count-any (has_version_id id) vs',
  count-any-true (has_version_id id) vs h,
  same,
  Bool-cases (any (has_version_id id) vs'),
)

own_version-ok :
    (restaurant_id : ℕ) (o : Option MenuVersion) {version : MenuVersion}
    → own_version restaurant_id o ≡ ok version
    → (o ≡ some version) × ((version.restaurant_id == restaurant_id) ≡ true)
own_version-ok restaurant_id none h = cc
own_version-ok restaurant_id (some v) {version} h = ground arith

-- The parts of a publication that returned.
publish-parts :
    (now restaurant_id id : ℕ) (rows : MenuRows) {rows' : MenuRows}
    → HaveUniqueIds rows.versions
    → publish now restaurant_id id rows ≡ ok rows'
    → All (If id (is_own_draft restaurant_id)) rows.versions
      × (any (has_version_id id) rows.versions ≡ true)
      × (publish_for_restaurant now restaurant_id id rows ≡ ok rows')
unfolding publish
publish-parts now restaurant_id id rows unique h =
    let (version, found, h1) =
      bind_parts (own_version restaurant_id (get_version id rows.versions)) _ h in
    let (draft_row, h2) = guard_parts (not (is_draft version.status)) _ _ h1 in
    let (there, own) = own_version-ok restaurant_id (get_version id rows.versions) found in
    let same = first-test (has_version_id id) rows.versions there in
    (
      All-If version.id id (is_own_draft restaurant_id) rows.versions same (
          first-All (has_version_id id) (is_own_draft restaurant_id) rows.versions unique there
            (ground (arith, own, draft_row))),
      ground (arith, first-any (has_version_id id) rows.versions there, same),
      h2,
    )

-- Of the menus of any restaurant at most one is published after a publication, if at most one was
-- before it and no two have the same id. The menu that was to be published is its restaurant's
-- published one, and just the restaurant's active branches are set to it.
pub publish_lem :
    (now restaurant_id id r : ℕ) (rows : MenuRows) {rows' : MenuRows}
    → HaveUniqueIds rows.versions
    → count (is_published_of r) rows.versions ≤ 1
    → publish now restaurant_id id rows ≡ ok rows'
    → (count (is_published_of r) rows'.versions ≤ 1)
      × (any (is_published_as restaurant_id id) rows'.versions ≡ true)
      × (rows'.branches ≡ map (activate restaurant_id id) rows.branches)
unfolding publish_for_restaurant
publish_lem now restaurant_id id r rows unique single h =
    let (own, there, h1) = publish-parts now restaurant_id id rows unique h in
    let (versions, archived, h2) =
      bind_parts (archive_current restaurant_id id rows.versions) _ h1 in
    let (drafts, ids, few) =
      archive_current-IsArchived restaurant_id id r rows.versions unique own single archived in
    rw (← rows_inj h2) (
      ground (
        arith,
        count-publish restaurant_id id now r versions drafts,
        count_unique id rows.versions unique,
        ids,
        few,
      ),
      any-publish now restaurant_id id versions drafts
          (any-count id rows.versions versions ids there),
      refl,
    )
