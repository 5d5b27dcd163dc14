-- ===== src/Time/Grid/Tests.antt =====
-- Two hours of a Monday, clicked out of order, and one cell outside the grid.
use kaktus.Base.{◌&&◌, List, [], ◌∷◌, any, ◌≡◌, refl}
use kaktus.Time.Windows.{sort_by, insert_by}
use kaktus.Time.Grid.{
  Cell, in_grid, cells_to_ranges, ranges_to_cells, ranges_of_days, weekdays_of, hours_of,
  sort_hours, insert_hour, runs_of, runs_from,
}
use kaktus.Time.Grid.Ticks.{is_cell}
use kaktus.Time.Grid.Roundtrip.{grid_roundtrip}

abbrev clicked : List Cell
clicked =
    record { weekday = 1; hour = 10 }
    ∷ record { weekday = 1; hour = 9 }
    ∷ record { weekday = 1; hour = 23 }
    ∷ []

one_range :
    cells_to_ranges clicked ≡ record { weekday = 1; start_minute = 540; end_minute = 660 } ∷ []
unfolding cells_to_ranges ranges_of_days weekdays_of hours_of sort_hours insert_hour runs_of
    runs_from sort_by insert_by
one_range = refl

grid_roundtrip_example :
    any (is_cell 1 9) (ranges_to_cells (cells_to_ranges clicked))
    ≡ in_grid 9 && any (is_cell 1 9) clicked
grid_roundtrip_example = grid_roundtrip 1 9 clicked
