-- ===== src/Modifiers/Sound.antt =====
-- What a successful validation says of the selections.
use mathlib.Core.Path.{subst}
use order_agent.Prelude.{
  ◌≤◌, ◌≡◌, refl, Bool, true, false, List, [], ◌∷◌, arith, All, map, if◌then◌else◌, All-append,
}
use order_agent.Errors.{ok, bind_parts, raise_if, modifier_duplicate}
use order_agent.Modifiers.{
  ModifierGroup, ModifierOption, Selection, Candidate, ModifierSnapshot, selects, options_of,
  candidates, choose, resolve, resolve_all, has_option, has_duplicate, count_of, minimum,
  check_group, check_groups, snapshot, validate,
}

-- A candidate that its selection means and that can be chosen.
abbrev pub IsChosen : Selection → Candidate → Type 0
IsChosen s c = (selects s c.0 c.1 ≡ true) × (c.0.active ≡ true) × (c.1.active ≡ true)

-- The selections are resolved one by one.
abbrev pub AreChosen : List Selection → List Candidate → Type 0
AreChosen [] [] = Unit
AreChosen (s ∷ ss) (c ∷ cs) = IsChosen s c × AreChosen ss cs
AreChosen _ _ = ⊥

-- No option is chosen twice.
abbrev pub AreDistinct : List Candidate → Type 0
AreDistinct [] = Unit
AreDistinct (c ∷ cs) = (has_option c.1.id cs ≡ false) × AreDistinct cs

-- The number of selections in a group, if it is active, is within its bounds.
abbrev pub IsWithin : List Candidate → ModifierGroup → Type 0
IsWithin resolved group =
    group.active ≡ true
    → (minimum group ≤ count_of group.id resolved)
      × (count_of group.id resolved ≤ group.max_selections)

options_of-selects :
    (s : Selection) (group : ModifierGroup) (options : List ModifierOption)
    → All (λ c. selects s c.0 c.1 ≡ true) (options_of s group options)
unfolding options_of
options_of-selects s group [] = tt
options_of-selects s group (option ∷ options) = ground (arith, options_of-selects s group options)

candidates-selects :
    (s : Selection) (groups : List ModifierGroup)
    → All (λ c. selects s c.0 c.1 ≡ true) (candidates s groups)
unfolding candidates
candidates-selects s [] = tt
candidates-selects s (group ∷ groups) =
    All-append (λ c. selects s c.0 c.1 ≡ true) (options_of s group group.options)
      (candidates s groups) (options_of-selects s group group.options) (candidates-selects s groups)

choose-IsChosen :
    (s : Selection) (cs : List Candidate) {c : Candidate}
    → All (λ d. selects s d.0 d.1 ≡ true) cs
    → choose cs ≡ ok c
    → IsChosen s c
unfolding choose
choose-IsChosen s [] h e = cc
choose-IsChosen s (d ∷ []) h e = ground arith
choose-IsChosen s (d ∷ f ∷ cs) h e = cc

resolve_all-AreChosen :
    (groups : List ModifierGroup) (ss : List Selection) {cs : List Candidate}
    → resolve_all groups ss ≡ ok cs
    → AreChosen ss cs
unfolding resolve_all
resolve_all-AreChosen groups [] {cs} e =
    let none_chosen : [] ≡ cs = cc in subst (AreChosen []) none_chosen tt
resolve_all-AreChosen groups (s ∷ ss) {cs} e =
    let (c, first, more) = bind_parts (resolve groups s) _ e in
    let (rest, others, all) = bind_parts (resolve_all groups ss) _ more in
    let whole : c ∷ rest ≡ cs = cc in
    subst (AreChosen (s ∷ ss)) whole (
      unfold resolve in choose-IsChosen s (candidates s groups) (candidates-selects s groups) first,
      resolve_all-AreChosen groups ss others,
    )

has_duplicate-AreDistinct : (cs : List Candidate) → has_duplicate cs ≡ false → AreDistinct cs
unfolding has_duplicate
has_duplicate-AreDistinct [] h = tt
has_duplicate-AreDistinct (c ∷ cs) h = ground (arith, has_duplicate-AreDistinct cs)

not_raised : (b : Bool) → raise_if b modifier_duplicate ≡ ok tt → b ≡ false
not_raised true h = cc
not_raised false h = refl

check_group-IsWithin :
    (resolved : List Candidate) (group : ModifierGroup)
    → check_group group (count_of group.id resolved) ≡ ok tt
    → IsWithin resolved group
unfolding check_group
check_group-IsWithin resolved group h active = ground arith

check_groups-IsWithin :
    (resolved : List Candidate) (groups : List ModifierGroup)
    → check_groups resolved groups ≡ ok tt
    → All (IsWithin resolved) groups
unfolding check_groups
check_groups-IsWithin resolved [] h = tt
check_groups-IsWithin resolved (group ∷ groups) h =
    let (_, first, rest) =
      bind_parts (if group.active then check_group group (count_of group.id resolved) else ok tt) _
        h in
    (
      λ active.
          check_group-IsWithin resolved group
            (subst
              (λ b. (if b then check_group group (count_of group.id resolved) else ok tt) ≡ ok tt)
              active first)
            active,
      check_groups-IsWithin resolved groups rest,
    )

-- A validation that succeeds returns the snapshots of one chosen option for each selection, in their
-- order: the option is one that the selection means, and it and its group are active. No option is
-- chosen twice, and in every active group the number of selections is at least its minimum, which is
-- one or more if the group is required, and at most its maximum.
pub validate_lem :
    (groups : List ModifierGroup) (selections : List Selection) {snapshots : List ModifierSnapshot}
    → validate groups selections ≡ ok snapshots
    → (resolved : List Candidate) × (snapshots ≡ map snapshot resolved)
      × AreChosen selections resolved
      × AreDistinct resolved
      × All (IsWithin resolved) groups
unfolding validate
validate_lem groups selections {snapshots} h =
    let (resolved, chosen, more) = bind_parts (resolve_all groups selections) _ h in
    let (_, distinct, rest) =
      bind_parts (raise_if (has_duplicate resolved) modifier_duplicate) _ more in
    let (_, within, done) = bind_parts (check_groups resolved groups) _ rest in
    (
      resolved,
      cc,
      resolve_all-AreChosen groups selections chosen,
      has_duplicate-AreDistinct resolved (not_raised (has_duplicate resolved) distinct),
      check_groups-IsWithin resolved groups within,
    )
