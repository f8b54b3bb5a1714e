-- ===== src/Hours/Intervals.antt =====
-- Opening hours as intervals of time.
use order_agent.Prelude.{
  ℕ, ◌+◌, ◌-◌, ◌<◌, ◌≡◌, refl, Bool, not, ◌&&◌, ◌||◌, some, List, [], ◌∷◌, ltb, leb, any, All,
  All-keep, arith, if◌then◌else◌,
}
use order_agent.Hours.{
  Slot, LocalTime, list_hours, day_before, closes_on, is_open_today, is_open_still, is_branch_open,
}

-- A slot's times are times of a day of `day` microseconds.
abbrev pub IsWithin : ℕ → Slot → Type 0
IsWithin day slot = (slot.start_time < day) × (slot.end_time < day)

-- Whether a slot of a day that begins at `midnight` covers an instant: it runs from its start to its
-- end, which is the next day's if it is not after the start.
abbrev pub covers : ℕ → ℕ → ℕ → Slot → Bool
covers day midnight instant slot =
    not slot.is_closed
    && leb (midnight + slot.start_time) instant
    && ltb instant
        (midnight + slot.end_time + (if leb slot.start_time slot.end_time then 0 else day))

is_open_today-covers :
    (day current : ℕ) (slots : List Slot)
    → current < day
    → All (IsWithin day) slots
    → any (is_open_today current) slots ≡ any (covers day day (day + current)) slots
is_open_today-covers day current [] now h = refl
is_open_today-covers day current (slot ∷ slots) now h =
    ground (arith, is_open_today-covers day current slots now h.1, h.0)

is_open_still-covers :
    (day current : ℕ) (slots : List Slot)
    → current < day
    → All (IsWithin day) slots
    → any (is_open_still current) slots ≡ any (covers day 0 (day + current)) slots
is_open_still-covers day current [] now h = refl
is_open_still-covers day current (slot ∷ slots) now h =
    ground (arith, is_open_still-covers day current slots now h.1, h.0)

-- The branch is open just if no slot closes it on the date, and one of the slots of the day, or of
-- the day before, covers the instant. The instant is counted from the beginning of the day before;
-- a slot runs from its start up to its end, over midnight where its end is before its start.
pub is_branch_open-covers :
    (day : ℕ) (hours : List Slot) (branch_id : ℕ) (local : LocalTime)
    → local.current < day
    → All (IsWithin day) hours
    → let slots = list_hours branch_id local.weekday local.date hours in
      let previous = list_hours branch_id (day_before local.weekday) (local.date - 1) hours in
      is_branch_open hours (some branch_id) local ≡ (
        not (any (closes_on local.date) slots)
        && (any (covers day day (day + local.current)) slots
            || any (covers day 0 (day + local.current)) previous))
unfolding is_branch_open
is_branch_open-covers day hours branch_id local now h =
    let slots = list_hours branch_id local.weekday local.date hours in
    let previous = list_hours branch_id (day_before local.weekday) (local.date - 1) hours in
    ground (
      arith,
      is_open_today-covers day local.current slots now (All-keep (IsWithin day) _ hours h),
      is_open_still-covers day local.current previous now (All-keep (IsWithin day) _ hours h),
    )
