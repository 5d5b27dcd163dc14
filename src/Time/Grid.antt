-- ===== src/Time/Grid.antt =====
-- lib/availability/grid.ts: the coach's weekly grid, as whole-hour cells and as ranges of minutes.
pub mod Ticks
pub mod Roundtrip
mod Tests
use kaktus.Base.{
  ℕ, zero, suc, ◌+◌, ◌-◌, ◌*◌, ◌/◌, min, max, Bool, true, false, ◌&&◌, ◌||◌, not, List, [], ◌∷◌,
  ◌++◌, map, any, leb, ltb, ◌==◌, select, if◌then◌else◌,
}
use kaktus.Time.Windows.{TimeWindow, sort_by, day_before}

abbrev pub grid_start_hour : ℕ
grid_start_hour = 7

abbrev pub grid_end_hour : ℕ
grid_end_hour = 23

pub record Cell : Type 0 where
  pub weekday : ℕ
  pub hour : ℕ

-- The shape of a window.
abbrev pub WeekdayRange : Type 0
WeekdayRange = TimeWindow

abbrev pub in_grid : ℕ → Bool
in_grid hour = leb grid_start_hour hour && ltb hour grid_end_hour

-- What the map has for a weekday: each hour once, where it was first pushed.
unfoldable pub hours_of : ℕ → List Cell → List ℕ
hours_of day [] = []
hours_of day (c ∷ cells) =
    let rest = hours_of day cells in
    if (c.weekday == day) && in_grid c.hour
    then c.hour ∷ select (λ h. not (h == c.hour)) rest
    else rest

-- The keys of the map.
unfoldable pub weekdays_of : List Cell → List ℕ
weekdays_of [] = []
weekdays_of (c ∷ cells) =
    let rest = weekdays_of cells in
    if in_grid c.hour then c.weekday ∷ select (λ d. not (d == c.weekday)) rest else rest

unfoldable pub insert_hour : ℕ → List ℕ → List ℕ
insert_hour x [] = x ∷ []
insert_hour x (y ∷ ys) = let rest = insert_hour x ys in if ltb y x then y ∷ rest else x ∷ y ∷ ys

unfoldable pub sort_hours : List ℕ → List ℕ
sort_hours [] = []
sort_hours (x ∷ xs) = insert_hour x (sort_hours xs)

abbrev pub range_of : ℕ → ℕ → ℕ → WeekdayRange
range_of day run_start prev = record {
  weekday = day;
  start_minute = run_start * 60;
  end_minute = (prev + 1) * 60;
}

-- The loop over the sorted hours, a run in hand.
unfoldable pub runs_from : ℕ → ℕ → ℕ → List ℕ → List WeekdayRange
runs_from day run_start prev [] = range_of day run_start prev ∷ []
runs_from day run_start prev (h ∷ hours) =
    let longer = runs_from day run_start h hours in
    let next = runs_from day h h hours in
    if h == prev + 1 then longer else range_of day run_start prev ∷ next

unfoldable pub runs_of : ℕ → List ℕ → List WeekdayRange
runs_of day [] = []
runs_of day (h ∷ hours) = runs_from day h h hours

unfoldable pub ranges_of_days : List Cell → List ℕ → List WeekdayRange
ranges_of_days cells [] = []
ranges_of_days cells (day ∷ days) =
    runs_of day (sort_hours (hours_of day cells)) ++ ranges_of_days cells days

unfoldable pub cells_to_ranges : List Cell → List WeekdayRange
cells_to_ranges cells = sort_by day_before (ranges_of_days cells (weekdays_of cells))

abbrev pub first_hour : WeekdayRange → ℕ
first_hour r = max grid_start_hour (r.start_minute / 60)

-- `Math.ceil(endMinute / 60)`
abbrev pub end_hour : WeekdayRange → ℕ
end_hour r = min grid_end_hour ((r.end_minute + 59) / 60)

unfoldable pub cells_from : ℕ → ℕ → ℕ → List Cell
cells_from day hour zero = []
cells_from day hour (suc n) = record { weekday = day; hour = hour } ∷ cells_from day (suc hour) n

-- The set, as the list of what was added.
unfoldable pub ranges_to_cells : List WeekdayRange → List Cell
ranges_to_cells [] = []
ranges_to_cells (r ∷ ranges) =
    cells_from r.weekday (first_hour r) (end_hour r - first_hour r) ++ ranges_to_cells ranges
