-- ===== src/Modifiers.antt =====
-- Modifier selections: backend/app/services/modifier_validation_service.py. The groups are those of
-- `menu_repository.modifier_configuration` for the dish, with their options.
pub mod Sound
use order_agent.Prelude.{
  ℕ, suc, ◌+◌, max, Bool, true, false, not, ◌&&◌, ◌||◌, String, List, [], ◌∷◌, ◌++◌, ltb, ◌==◌,
  if◌then◌else◌, map, any,
}
use order_agent.Prelude.Int.{ℤ}
use order_agent.Prelude.Text.{str_eq}
use order_agent.Errors.{
  Result, ok, err, ◌>>=◌, ◌>>◌, raise_if, modifier_required, modifier_too_few, modifier_too_many,
  modifier_not_available, modifier_ambiguous, modifier_duplicate,
}

pub record ModifierOption : Type 0 where
  pub id : ℕ
  pub code : String
  pub name : String
  pub price_delta_minor : ℤ
  pub active : Bool

pub record ModifierGroup : Type 0 where
  pub id : ℕ
  pub code : String
  pub active : Bool
  pub required : Bool
  pub min_selections : ℕ
  pub max_selections : ℕ
  pub options : List ModifierOption

-- A selection is a pair of codes, a legacy name, or some other JSON value. Codes that are missing are
-- ones that no group or option has.
pub data Selection : Type 0 where
  by_code : String → String → Selection
  by_name : String → Selection
  malformed : Selection

abbrev pub Candidate : Type 0
Candidate = ModifierGroup × ModifierOption

abbrev selects : Selection → ModifierGroup → ModifierOption → Bool
selects (by_code group_code option_code) group option =
    str_eq group.code group_code && str_eq option.code option_code
selects (by_name name) group option = str_eq option.name name
selects malformed group option = false

options_of : Selection → ModifierGroup → List ModifierOption → List Candidate
options_of s group [] = []
options_of s group (option ∷ options) =
    let rest = options_of s group options in
    if selects s group option then (group, option) ∷ rest else rest

-- `candidates`
candidates : Selection → List ModifierGroup → List Candidate
unfolding options_of
candidates s [] = []
candidates s (group ∷ groups) = options_of s group group.options ++ candidates s groups

abbrev is_active : Candidate → Bool
is_active (group, option) = group.active && option.active

choose : List Candidate → Result Candidate
choose [] = err modifier_not_available
choose (c ∷ []) = if is_active c then ok c else err modifier_not_available
choose (c ∷ d ∷ cs) = err modifier_ambiguous

-- `_resolve`; a malformed selection has no candidate.
unfoldable pub resolve : List ModifierGroup → Selection → Result Candidate
unfolding candidates choose
resolve groups s = choose (candidates s groups)

resolve_all : List ModifierGroup → List Selection → Result (List Candidate)
unfolding resolve
resolve_all groups [] = ok []
resolve_all groups (s ∷ ss) = do c ← resolve groups s; cs ← resolve_all groups ss; ok (c ∷ cs)

-- Whether an option is among the resolved ones, by its id.
abbrev pub has_option : ℕ → List Candidate → Bool
has_option id = any (λ c. c.1.id == id)

-- `len(option_ids) != len(set(option_ids))`
has_duplicate : List Candidate → Bool
has_duplicate [] = false
has_duplicate (c ∷ cs) = has_option c.1.id cs || has_duplicate cs

-- `counts[group["id"]]`
abbrev pub count_of : ℕ → List Candidate → ℕ
count_of group_id [] = 0
count_of group_id (c ∷ cs) =
    let rest = count_of group_id cs in if c.0.id == group_id then suc rest else rest

-- `max(group["minSelections"], 1 if group["required"] else 0)`
abbrev pub minimum : ModifierGroup → ℕ
minimum group = max group.min_selections (if group.required then 1 else 0)

check_group : ModifierGroup → ℕ → Result (Unit {0})
check_group group count = do
  raise_if (count == 0 && group.required) (modifier_required group.code)
  raise_if (ltb count (minimum group)) (modifier_too_few group.code)
  raise_if (ltb group.max_selections count) (modifier_too_many group.code)

-- The loop over the groups; an inactive one is skipped.
check_groups : List Candidate → List ModifierGroup → Result (Unit {0})
unfolding check_group
check_groups resolved [] = ok tt
check_groups resolved (group ∷ groups) =
    (if group.active then check_group group (count_of group.id resolved) else ok tt)
    >> check_groups resolved groups

-- An entry of the returned snapshot.
pub record ModifierSnapshot : Type 0 where
  pub group_code : String
  pub option_code : String
  pub name : String
  pub price_delta_minor : ℤ

abbrev pub snapshot : Candidate → ModifierSnapshot
snapshot (group, option) = record {
  group_code = group.code;
  option_code = option.code;
  name = option.name;
  price_delta_minor = option.price_delta_minor;
}

-- `validate`
unfoldable pub validate : List ModifierGroup → List Selection → Result (List ModifierSnapshot)
unfolding resolve_all has_duplicate check_groups
validate groups selections = do
  resolved ← resolve_all groups selections
  raise_if (has_duplicate resolved) modifier_duplicate
  check_groups resolved groups
  ok (map snapshot resolved)
