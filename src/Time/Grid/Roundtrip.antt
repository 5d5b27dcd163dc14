-- ===== src/Time/Grid/Roundtrip.antt =====
-- Saving the grid and loading it again.
use kaktus.Base.{
  ℕ, Bool, true, false, ◌&&◌, ◌||◌, not, List, [], ◌∷◌, ◌≡◌, refl, ap, ◌∙◌, arith, ◌==◌, ==→eq, any,
  select, Bool-cases, inl, inr, any-append, any-select, any-ext,
}
use mathlib.Core.Path.{ap₂}
use kaktus.Time.Windows.{sort_by, day_before}
use kaktus.Time.Windows.Buckets.{any-sort_by}
use kaktus.Time.Grid.{
  Cell, in_grid, hours_of, weekdays_of, sort_hours, runs_of, ranges_of_days, cells_to_ranges,
  ranges_to_cells,
}
use kaktus.Time.Grid.Ticks.{
  is_cell, ticks, any-ranges_to_cells, any-sort_hours, runs_of-ticks, and_false,
}

-- Leaving out one key that differs from `x` hides nothing.
others_kept :
    (x y : ℕ) (xs : List ℕ)
    → (y == x) ≡ false
    → any (λ h. h == x) (select (λ h. not (h == y)) xs) ≡ any (λ h. h == x) xs
others_kept x y xs differs =
    any-select (λ h. h == x) (λ h. not (h == y)) xs
    ∙ any-ext (λ h. not (h == y) && (h == x)) (λ h. h == x) (λ h. kept x y h differs) xs
  where
    kept : (x y h : ℕ) → (y == x) ≡ false → not (h == y) && (h == x) ≡ (h == x)
    kept x y h differs = ground arith

has_hour :
    (d hour wd ch : ℕ) (x r : Bool)
    → (wd == d) && in_grid ch ≡ true
    → (ch == hour) ≡ true
    → (ch == hour) || x ≡ in_grid hour && (((wd == d) && (ch == hour)) || r)
has_hour d hour wd ch x r kept here = ground arith

other_hour :
    (d hour wd ch : ℕ) (r : Bool)
    → (ch == hour) ≡ false
    → (ch == hour) || (in_grid hour && r) ≡ in_grid hour && (((wd == d) && (ch == hour)) || r)
other_hour d hour wd ch r there = ground arith

lost_hour :
    (d hour wd ch : ℕ) (r : Bool)
    → (wd == d) && in_grid ch ≡ false
    → in_grid hour && r ≡ in_grid hour && (((wd == d) && (ch == hour)) || r)
lost_hour d hour wd ch r out = ground arith

hours_of-has :
    (hour d : ℕ) (cells : List Cell)
    → any (λ h. h == hour) (hours_of d cells) ≡ in_grid hour && any (is_cell d hour) cells
unfolding hours_of
hours_of-has hour d [] = and_false (in_grid hour)
hours_of-has hour d (c ∷ cells) =
    let rest = hours_of-has hour d cells in
    let r = any (is_cell d hour) cells in
    elim (Bool-cases ((c.weekday == d) && in_grid c.hour)) [
      | inl kept ↦ elim (Bool-cases (c.hour == hour)) [
        | inl here ↦ rw kept (has_hour d hour c.weekday c.hour _ r kept here)
        | inr there ↦ rw kept (
            ap (λ b. (c.hour == hour) || b)
              (others_kept hour c.hour (hours_of d cells) there ∙ rest)
            ∙ other_hour d hour c.weekday c.hour r there)
      ]
      | inr out ↦ rw out (rest ∙ lost_hour d hour c.weekday c.hour r out)
    ]

day_ticks :
    (day hour d : ℕ) (cells : List Cell)
    → ((d == day) && in_grid hour) && (in_grid hour && any (is_cell d hour) cells)
      ≡ (d == day) && (in_grid hour && any (is_cell day hour) cells)
day_ticks day hour d cells = elim (Bool-cases (d == day)) [
  | inl same ↦ rw same (
      both (in_grid hour) (any (is_cell d hour) cells)
      ∙ ap (λ x. in_grid hour && any (is_cell x hour) cells) (==→eq d day same))
  | inr other ↦ rw other refl
]
  where
    both : (g b : Bool) → g && (g && b) ≡ g && b
    both true b = refl
    both false b = refl

spread : (a b c : Bool) → (a && c) || (b && c) ≡ (a || b) && c
spread true b true = refl
spread true true false = refl
spread true false false = refl
spread false b c = refl

ranges_of_days-ticks :
    (day hour : ℕ) (cells : List Cell) (days : List ℕ)
    → any (ticks day hour) (ranges_of_days cells days)
      ≡ any (λ d. d == day) days && (in_grid hour && any (is_cell day hour) cells)
unfolding ranges_of_days
ranges_of_days-ticks day hour cells [] = refl
ranges_of_days-ticks day hour cells (d ∷ days) =
    let hours = hours_of d cells in
    let run =
      runs_of-ticks day hour d (sort_hours hours)
      ∙ ap (λ b. ((d == day) && in_grid hour) && b)
          (any-sort_hours (λ h. h == hour) hours ∙ hours_of-has hour d cells)
      ∙ day_ticks day hour d cells in
    any-append (ticks day hour) (runs_of d (sort_hours hours)) (ranges_of_days cells days)
    ∙ ap₂ (λ (x y : Bool). x || y) run (ranges_of_days-ticks day hour cells days)
    ∙ spread (d == day) (any (λ d. d == day) days) (in_grid hour && any (is_cell day hour) cells)

other_day :
    (day hour wd ch : ℕ) (w r : Bool)
    → (wd == day) ≡ false
    → w && (in_grid hour && r) ≡ in_grid hour && r
    → ((wd == day) || w) && (in_grid hour && (((wd == day) && (ch == hour)) || r))
      ≡ in_grid hour && (((wd == day) && (ch == hour)) || r)
other_day day hour wd ch w r there rest = rw there rest

lost_cell :
    (day hour wd ch : ℕ) (w r : Bool)
    → in_grid ch ≡ false
    → w && (in_grid hour && r) ≡ in_grid hour && r
    → w && (in_grid hour && (((wd == day) && (ch == hour)) || r))
      ≡ in_grid hour && (((wd == day) && (ch == hour)) || r)
lost_cell day hour wd ch w r out rest = ground arith

-- A weekday with a cell in the grid has its key.
weekdays_of-has :
    (day hour : ℕ) (cells : List Cell)
    → any (λ d. d == day) (weekdays_of cells) && (in_grid hour && any (is_cell day hour) cells)
      ≡ in_grid hour && any (is_cell day hour) cells
unfolding weekdays_of
weekdays_of-has day hour [] = and_false (in_grid hour)
weekdays_of-has day hour (c ∷ cells) =
    let rest = weekdays_of-has day hour cells in
    let r = any (is_cell day hour) cells in
    let w = any (λ d. d == day) (weekdays_of cells) in
    elim (Bool-cases (in_grid c.hour)) [
      | inr out ↦ rw out (lost_cell day hour c.weekday c.hour w r out rest)
      | inl inside ↦ elim (Bool-cases (c.weekday == day)) [
        | inl here ↦ rw (inside, here) refl
        | inr there ↦ rw inside (
            ap
              (λ b.
                ((c.weekday == day) || b)
                && (in_grid hour && (((c.weekday == day) && (c.hour == hour)) || r)))
              (others_kept day c.weekday (weekdays_of cells) there)
            ∙ other_day day hour c.weekday c.hour w r there rest)
      ]
    ]

-- Saving the selected cells as ranges and loading them again selects exactly the cells that were
-- selected and lie in the grid, in whatever order they were clicked and however often.
pub grid_roundtrip :
    (day hour : ℕ) (cells : List Cell)
    → any (is_cell day hour) (ranges_to_cells (cells_to_ranges cells))
      ≡ in_grid hour && any (is_cell day hour) cells
unfolding cells_to_ranges
grid_roundtrip day hour cells =
    let ranges = ranges_of_days cells (weekdays_of cells) in
    any-ranges_to_cells day hour (sort_by day_before ranges)
    ∙ any-sort_by (ticks day hour) day_before ranges
    ∙ ranges_of_days-ticks day hour cells (weekdays_of cells)
    ∙ weekdays_of-has day hour cells
