-- ===== src/Offers/Scope.antt =====
-- lib/offers/scope.ts: the periods of the milestones, and when a milestone may be marked as done.
-- An instant is its number of milliseconds since the epoch.
pub mod Tiling
pub mod Sessions
mod Tests
use kaktus.Base.{
  ℕ, zero, suc, ◌+◌, ◌-◌, ◌*◌, ◌/◌, ◌%◌, max, Bool, true, false, ◌&&◌, not, List, [], ◌∷◌, map, ltb,
  leb, ◌==◌, if◌then◌else◌, Result, ok, err, ◌>>◌, ◌>>=◌, throw_if, length, get_or, select,
}
use kaktus.Payments.Split.{indices_from}

pub record Slot : Type 0 where
  pub starts_at : ℕ
  pub ends_at : ℕ

pub record Period : Type 0 where
  pub index : ℕ
  pub period_start : ℕ
  pub period_end : ℕ

pub data ScopeError : Type 0 where
  bad_count bad_dates : ScopeError

-- The i-th of `count` periods, from the instants at which they start and the end of the last.
unfoldable pub period_at : (ℕ → ℕ) → ℕ → ℕ → ℕ → Period
period_at starts end count i = record {
  index = i;
  period_start = starts i;
  period_end = if i == count - 1 then end else starts (suc i);
}

-- `milestonePeriods`: an even split of the time.
unfoldable pub milestone_periods : ℕ → ℕ → ℕ → Result ScopeError (List Period)
milestone_periods start_date end_date count = do
  throw_if (ltb count 1) bad_count
  throw_if (leb end_date start_date) bad_dates
  let total_ms = end_date - start_date
  let step = total_ms / count
  ok (map (period_at (λ i. start_date + step * i) end_date count) (indices_from 0 count))

-- A stable sort by `startsAt`.
unfoldable pub insert_slot : Slot → List Slot → List Slot
insert_slot s [] = s ∷ []
insert_slot s (t ∷ ts) = if leb s.starts_at t.starts_at then s ∷ t ∷ ts else t ∷ insert_slot s ts

unfoldable pub sort_slots : List Slot → List Slot
unfolding insert_slot
sort_slots [] = []
sort_slots (s ∷ ss) = insert_slot s (sort_slots ss)

-- The loop that fills `firstIndexes`: `n` rounds from round `i` on, at `cursor`.
unfoldable pub first_indexes : ℕ → ℕ → ℕ → ℕ → ℕ → List ℕ
first_indexes base extra zero i cursor = []
first_indexes base extra (suc n) i cursor =
    cursor ∷ first_indexes base extra n (suc i) (cursor + (base + (if ltb i extra then 1 else 0)))

-- `xs[i].startsAt`; `Sessions` shows that the index is in range wherever it is read.
unfoldable pub start_of : List Slot → ℕ → ℕ
start_of slots i = get_or (map (λ (s : Slot). s.starts_at) slots) i 0

-- `sorted[sorted.length - 1].endsAt`
unfoldable pub last_end : List Slot → ℕ
last_end [] = 0
last_end (s ∷ []) = s.ends_at
last_end (s ∷ t ∷ ts) = last_end (t ∷ ts)

-- `milestonePeriodsForSlots`: each milestone owns a run of the sessions.
unfoldable pub milestone_periods_for_slots : List Slot → ℕ → ℕ → ℕ → Result ScopeError (List Period)
milestone_periods_for_slots slots start_date end_date count = do
  throw_if (ltb count 1) bad_count
  let even = milestone_periods start_date end_date count
  let sorted = sort_slots slots
  let base = length sorted / count
  let extra = length sorted % count
  let firsts = first_indexes base extra count 0 0
  let end = max end_date (last_end sorted)
  if ltb (length slots) count
      then even
      else ok (
          map (period_at (λ i. start_of sorted (get_or firsts i 0)) end count)
            (indices_from 0 count))

pub data BookingStatus : Type 0 where
  scheduled completed cancelled_by_student cancelled_by_coach no_show_student no_show_coach :
      BookingStatus

-- A session that was not cancelled.
abbrev pub is_held : BookingStatus → Bool
is_held cancelled_by_student = false
is_held cancelled_by_coach = false
is_held _ = true

pub record Session : Type 0 where
  pub ends_at : ℕ
  pub status : BookingStatus

abbrev pub latest : List Session → ℕ
latest [] = 0
latest (b ∷ bs) = max b.ends_at (latest bs)

unfoldable pub milestone_completable_at : List Session → ℕ → ℕ
milestone_completable_at bookings period_end =
    let held = select (λ b. is_held b.status) bookings in
    if length held == 0 then period_end else latest held
