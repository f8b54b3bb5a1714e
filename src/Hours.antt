-- ===== src/Hours.antt =====
-- Whether a branch is open: `OpeningHoursService` of backend/app/services/opening_hours_service.py,
-- with `list_hours` of backend/app/repositories/operations_repository.py. A time of day is the
-- microseconds since midnight, and a date the days since some first one.
pub mod Intervals
use order_agent.Prelude.{
  ℕ, zero, suc, ◌-◌, Bool, true, false, not, ◌&&◌, ◌||◌, Option, none, some, List, ◌==◌, ltb, leb,
  any, keep, if◌then◌else◌,
}

-- `OpeningHours`
pub record Slot : Type 0 where
  pub branch_id : ℕ
  pub weekday : ℕ
  pub effective_date : Option ℕ
  pub start_time : ℕ
  pub end_time : ℕ
  pub is_closed : Bool

-- The instant that is asked about, as the branch's clock shows it.
pub record LocalTime : Type 0 where
  pub date : ℕ
  pub weekday : ℕ
  pub current : ℕ

abbrev pub is_effective_date : ℕ → Option ℕ → Bool
is_effective_date date none = false
is_effective_date date (some d) = d == date

abbrev is_missing : Option ℕ → Bool
is_missing none = true
is_missing (some d) = false

-- The WHERE of `list_hours`.
abbrev pub is_listed : ℕ → ℕ → ℕ → Slot → Bool
is_listed branch_id weekday date slot =
    slot.branch_id == branch_id
    && slot.weekday == weekday
    && (is_missing slot.effective_date || is_effective_date date slot.effective_date)

-- `list_hours`
abbrev pub list_hours : ℕ → ℕ → ℕ → List Slot → List Slot
list_hours branch_id weekday date = keep (is_listed branch_id weekday date)

-- `(weekday - 1) % 7`
abbrev pub day_before : ℕ → ℕ
day_before zero = 6
day_before (suc weekday) = weekday

-- A slot that closes the branch on its very date.
abbrev pub closes_on : ℕ → Slot → Bool
closes_on date slot = is_effective_date date slot.effective_date && slot.is_closed

-- The body of the loop over the slots of the day.
abbrev pub is_open_today : ℕ → Slot → Bool
is_open_today current slot =
    if slot.is_closed
    then false
    else if leb slot.start_time slot.end_time
    then leb slot.start_time current && ltb current slot.end_time
    else leb slot.start_time current

-- The test of the loop over the slots of the day before.
abbrev pub is_open_still : ℕ → Slot → Bool
is_open_still current slot =
    not slot.is_closed && ltb slot.end_time slot.start_time && ltb current slot.end_time

-- `is_branch_open`, of the branch's id if the branch exists.
unfoldable pub is_branch_open : List Slot → Option ℕ → LocalTime → Bool
is_branch_open hours none local = false
is_branch_open hours (some branch_id) local =
    let slots = list_hours branch_id local.weekday local.date hours in
    let previous = list_hours branch_id (day_before local.weekday) (local.date - 1) hours in
    if any (closes_on local.date) slots
    then false
    else any (is_open_today local.current) slots || any (is_open_still local.current) previous
