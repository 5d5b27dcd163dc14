-- ===== src/Offers/Scope/Sessions.antt =====
-- The periods that are anchored to the booked sessions.
pub mod Sorting
use kaktus.Base.{
  ℕ, zero, suc, ◌+◌, ◌-◌, ◌*◌, ◌/◌, ◌%◌, ◌≤◌, ◌<◌, ◌≡◌, refl, sym, ◌∙◌, arith, Bool, true, false,
  List, [], ◌∷◌, map, min, max, leb, ltb, ◌==◌, Result, ok, err, length, length-map, All, All-imp₂,
  get_or, if◌then◌else◌, Bool-cases, inl, inr,
}
use mathlib.Core.Path.{subst}
use kaktus.Payments.Split.{indices_from}
use kaktus.Payments.Split.Parts.{length-indices_from}
use kaktus.Offers.Scope.{
  Slot, Period, period_at, sort_slots, first_indexes, start_of, last_end, milestone_periods,
  milestone_periods_for_slots,
}
use kaktus.Offers.Scope.Tiling.{Tiles, owners, Tiles-owners, period_at-Tiles}
use kaktus.Offers.Scope.Sessions.Sorting.{
  IsOrdered, IsSorted, sort_slots-IsSorted, length-sort_slots, All-sort_slots, All-unsort_slots,
  start_of_mono, start_of-lt, starts_from_first, starts_before_last,
}

-- The loop in closed form.
first_indexes-get :
    (base extra n i cursor j : ℕ)
    → j < n
    → get_or (first_indexes base extra n i cursor) j 0 + min extra i
      ≡ cursor + j * base + min extra (i + j)
unfolding first_indexes
first_indexes-get base extra zero i cursor j h = absurd (omega arith)
first_indexes-get base extra (suc n) i cursor zero h = omega arith
first_indexes-get base extra (suc n) i cursor (suc j) h = ground (
  arith,
  first_indexes-get base extra n (suc i) (cursor + (base + (if ltb i extra then 1 else 0))) j,
)

-- The session at which the j-th of `count` milestones starts, out of `len` sessions.
first_of : ℕ → ℕ → ℕ → ℕ
first_of len count j = get_or (first_indexes (len / count) (len % count) count 0 0) j 0

first_of_lem :
    (len count j : ℕ) → j < count → first_of len count j ≡ j * (len / count) + min (len % count) j
unfolding first_of
first_of_lem len count j h =
    omega (arith, first_indexes-get (len / count) (len % count) count 0 0 j h)

last_share :
    (base count extra j m : ℕ)
    → j < count
    → 1 ≤ base
    → m ≤ extra
    → j * base + m < count * base + extra
last_share base count extra j m h b k = grind arith

base_pos : (len count : ℕ) → count ≤ len → 0 < count → 1 ≤ len / count
base_pos len count h p = grind arith

whole : (len count : ℕ) → count * (len / count) + len % count ≡ len
whole len count = grind arith

first_of-lt : (len count j : ℕ) → count ≤ len → j < count → first_of len count j < len
first_of-lt len count j h lt =
    let base = len / count in
    let extra = len % count in
    omega (
      arith,
      first_of_lem len count j lt,
      last_share base count extra j (min extra j) lt (base_pos len count h (omega arith))
          (omega arith),
      whole len count,
    )

first_of-step :
    (len count j : ℕ)
    → count ≤ len
    → suc j < count
    → first_of len count j < first_of len count (suc j)
first_of-step len count j h lt = omega (
  arith,
  first_of_lem len count j (omega arith),
  first_of_lem len count (suc j) lt,
  base_pos len count h (omega arith),
)

module _ (slots : List Slot) (start_date end_date count : ℕ) where
  sessions-inv :
      {ps : List Period}
      → milestone_periods_for_slots slots start_date end_date count ≡ ok ps
      → count ≤ length slots
      → (0 < count)
        × (ps
            ≡ map
                (period_at
                  (λ i. start_of (sort_slots slots) (first_of (length (sort_slots slots)) count i))
                  (max end_date (last_end (sort_slots slots)))
                  count)
                (indices_from 0 count))
  unfolding milestone_periods_for_slots first_of
  sessions-inv h enough = ground arith

  sessions-starts :
      count ≤ length slots
      → (j : ℕ) → suc j < count
      → start_of (sort_slots slots) (first_of (length (sort_slots slots)) count j)
        ≤ start_of (sort_slots slots) (first_of (length (sort_slots slots)) count (suc j))
  sessions-starts enough j lt =
      let sorted = sort_slots slots in
      let len = length sorted in
      let enough' : count ≤ len = omega (arith, length-sort_slots slots) in
      start_of_mono sorted (first_of len count j) (first_of len count (suc j))
        (sort_slots-IsSorted slots) (omega (arith, first_of-step len count j enough' lt))
        (first_of-lt len count (suc j) enough' lt)

Tiles-sessions :
    (slots : List Slot) (start_date end_date n : ℕ)
    → suc n ≤ length slots
    → All IsOrdered slots
    → let sorted = sort_slots slots in
      let end = max end_date (last_end sorted) in
      Tiles (start_of sorted 0) end (
        map
          (period_at (λ i. start_of sorted (first_of (length sorted) (suc n) i)) end (suc n))
          (indices_from 0 (suc n)))
Tiles-sessions slots start_date end_date n enough ordered =
    let sorted = sort_slots slots in
    let len = length sorted in
    let starts = λ (i : ℕ). start_of sorted (first_of len (suc n) i) in
    let end = max end_date (last_end sorted) in
    let enough' : suc n ≤ len = omega (arith, length-sort_slots slots) in
    let at : first_of len (suc n) 0 ≡ 0 = omega (arith, first_of_lem len (suc n) 0) in
    subst
      (λ k.
        Tiles (start_of sorted k) end (map (period_at starts end (suc n)) (indices_from 0 (suc n))))
      at
      (period_at-Tiles starts end (suc n) 0 n (omega arith)
        (sessions-starts slots start_date end_date (suc n) enough)
        (omega (
          arith,
          start_of-lt (last_end sorted) sorted (first_of len (suc n) (suc n - 1))
              (starts_before_last sorted (sort_slots-IsSorted slots)
                (All-sort_slots IsOrdered slots ordered))
              (first_of-lt len (suc n) (suc n - 1) enough' (omega arith)),
        )))

-- Every instant at which a session of the scope starts lies in the stretch that the periods tile.
sessions_inside :
    (slots : List Slot) (end_date : ℕ) (ps : List Period)
    → All IsOrdered slots
    → Tiles (start_of (sort_slots slots) 0) (max end_date (last_end (sort_slots slots))) ps
    → All (λ (s : Slot). owners s.starts_at ps ≡ 1) slots
sessions_inside slots end_date ps ordered tiles =
    let sorted = sort_slots slots in
    let end = max end_date (last_end sorted) in
    let from = starts_from_first sorted (sort_slots-IsSorted slots) in
    let before =
      starts_before_last sorted (sort_slots-IsSorted slots)
        (All-sort_slots IsOrdered slots ordered) in
    All-unsort_slots (λ (s : Slot). owners s.starts_at ps ≡ 1) slots
      (All-imp₂ sorted (λ (s : Slot). start_of sorted 0 ≤ s.starts_at)
        (λ (s : Slot). s.starts_at < last_end sorted) (λ (s : Slot). owners s.starts_at ps ≡ 1)
        (λ s f b. (Tiles-owners s.starts_at (start_of sorted 0) end ps tiles).0 (f, omega arith))
        from before)

-- With at least as many sessions as milestones, all ending after they start, the periods are as many
-- as the milestones, tile the time from the first session to the end without gap or overlap, and
-- every session starts in exactly one of them.
pub sessions_owned :
    (slots : List Slot) (start_date end_date count : ℕ) {ps : List Period}
    → milestone_periods_for_slots slots start_date end_date count ≡ ok ps
    → count ≤ length slots
    → All IsOrdered slots
    → (length ps ≡ count)
      × Tiles (start_of (sort_slots slots) 0) (max end_date (last_end (sort_slots slots))) ps
      × All (λ (s : Slot). owners s.starts_at ps ≡ 1) slots
sessions_owned slots start_date end_date zero h enough ordered =
    absurd (omega (arith, sessions-inv slots start_date end_date zero h enough))
sessions_owned slots start_date end_date (suc n) {ps} h enough ordered =
    let (_, e) = sessions-inv slots start_date end_date (suc n) h enough in
    let tiles : Tiles (start_of (sort_slots slots) 0) (max end_date (last_end (sort_slots slots)))
        ps =
      rw e (Tiles-sessions slots start_date end_date n enough ordered) in
    (
      rw e (length-map _ (indices_from 0 (suc n)) ∙ length-indices_from 0 (suc n)),
      tiles,
      sessions_inside slots end_date ps ordered tiles,
    )
