-- ===== src/Time/Grid/Ticks.antt =====
-- Which cells a list of ranges ticks.
use kaktus.Base.{
  ℕ, zero, suc, ◌+◌, ◌-◌, ◌≤◌, Bool, true, false, ◌&&◌, ◌||◌, List, [], ◌∷◌, ◌≡◌, refl, ap, ◌∙◌,
  arith, leb, ltb, ◌==◌, any, Bool-cases, inl, inr, any-append,
}
use mathlib.Core.Path.{ap₂}
use kaktus.Time.Grid.{
  Cell, WeekdayRange, in_grid, insert_hour, sort_hours, range_of, runs_from, runs_of, first_hour,
  end_hour, cells_from, ranges_to_cells,
}

abbrev pub is_cell : ℕ → ℕ → Cell → Bool
is_cell day hour c = (c.weekday == day) && (c.hour == hour)

-- The hours that a range ticks.
abbrev pub ticks : ℕ → ℕ → WeekdayRange → Bool
ticks day hour r = (r.weekday == day) && (leb (first_hour r) hour && ltb hour (end_hour r))

any-cells_from :
    (day hour d h n : ℕ)
    → any (is_cell day hour) (cells_from d h n) ≡ (d == day) && (leb h hour && ltb hour (h + n))
unfolding cells_from
any-cells_from day hour d h zero = ground arith
any-cells_from day hour d h (suc n) =
    let rest = any-cells_from day hour d (suc h) n in rw rest (one_more day hour d h n)
  where
    one_more :
        (day hour d h n : ℕ)
        → ((d == day) && (h == hour)) || ((d == day) && (leb (suc h) hour && ltb hour (suc h + n)))
          ≡ (d == day) && (leb h hour && ltb hour (h + suc n))
    one_more day hour d h n = ground arith

pub any-ranges_to_cells :
    (day hour : ℕ) (rs : List WeekdayRange)
    → any (is_cell day hour) (ranges_to_cells rs) ≡ any (ticks day hour) rs
unfolding ranges_to_cells
any-ranges_to_cells day hour [] = refl
any-ranges_to_cells day hour (r ∷ rs) =
    any-append (is_cell day hour) (cells_from r.weekday (first_hour r) (end_hour r - first_hour r))
      (ranges_to_cells rs)
    ∙ rw
        (
          any-cells_from day hour r.weekday (first_hour r) (end_hour r - first_hour r),
          any-ranges_to_cells day hour rs,
        )
        (ap (λ b. b || any (ticks day hour) rs)
          (span day hour r.weekday (first_hour r) (end_hour r)))
  where
    span :
        (day hour d a b : ℕ)
        → (d == day) && (leb a hour && ltb hour (a + (b - a)))
          ≡ (d == day) && (leb a hour && ltb hour b)
    span day hour d a b = ground arith

any-insert_hour : (p : ℕ → Bool) (x : ℕ) (ys : List ℕ) → any p (insert_hour x ys) ≡ p x || any p ys
unfolding insert_hour
any-insert_hour p x [] = refl
any-insert_hour p x (y ∷ ys) = elim (Bool-cases (ltb y x)) [
  | inl later ↦ rw (later, any-insert_hour p x ys) (swap (p y) (p x) (any p ys))
  | inr now ↦ rw now refl
]
  where
    swap : (a b c : Bool) → a || (b || c) ≡ b || (a || c)
    swap true true c = refl
    swap true false c = refl
    swap false b c = refl

pub any-sort_hours : (p : ℕ → Bool) (xs : List ℕ) → any p (sort_hours xs) ≡ any p xs
unfolding sort_hours
any-sort_hours p [] = refl
any-sort_hours p (x ∷ xs) =
    any-insert_hour p x (sort_hours xs) ∙ ap (λ b. p x || b) (any-sort_hours p xs)

-- A run ticks its hours, within the grid.
range_ticks :
    (day hour d a b : ℕ)
    → ticks day hour (range_of d a b) ≡ ((d == day) && in_grid hour) && (leb a hour && leb hour b)
range_ticks day hour d a b = ground arith

longer_run :
    (g : Bool) (hour a p h : ℕ) (b : Bool)
    → a ≤ p + 1
    → (h == p + 1) ≡ true
    → g && ((leb a hour && leb hour h) || b)
      ≡ g && ((leb a hour && leb hour p) || ((h == hour) || b))
longer_run g hour a p h b fits next = ground arith

new_run :
    (g : Bool) (hour a p h : ℕ) (b : Bool)
    → (g && (leb a hour && leb hour p)) || (g && ((leb h hour && leb hour h) || b))
      ≡ g && ((leb a hour && leb hour p) || ((h == hour) || b))
new_run g hour a p h b = ground arith

last_run : (g b : Bool) → (g && b) || false ≡ g && (b || false)
last_run true b = refl
last_run false b = refl

next_fits : (a p h : ℕ) → a ≤ p + 1 → (h == p + 1) ≡ true → a ≤ h + 1
next_fits a p h fits next = ground arith

runs_from-ticks :
    (day hour d a p : ℕ) (hours : List ℕ)
    → a ≤ p + 1
    → any (ticks day hour) (runs_from d a p hours)
      ≡ ((d == day) && in_grid hour) && ((leb a hour && leb hour p) || any (λ h. h == hour) hours)
unfolding runs_from
runs_from-ticks day hour d a p [] fits =
    ap (λ b. b || false) (range_ticks day hour d a p)
    ∙ last_run ((d == day) && in_grid hour) (leb a hour && leb hour p)
runs_from-ticks day hour d a p (h ∷ hours) fits =
    let g = (d == day) && in_grid hour in
    let b = any (λ h. h == hour) hours in
    elim (Bool-cases (h == p + 1)) [
      | inl next ↦ rw next (
          runs_from-ticks day hour d a h hours (next_fits a p h fits next)
          ∙ longer_run g hour a p h b fits next)
      | inr gap ↦ rw gap (
          ap₂ (λ (x y : Bool). x || y) (range_ticks day hour d a p)
            (runs_from-ticks day hour d h h hours (omega arith))
          ∙ new_run g hour a p h b)
    ]

first_run :
    (g : Bool) (hour h : ℕ) (b : Bool)
    → g && ((leb h hour && leb hour h) || b) ≡ g && ((h == hour) || b)
first_run g hour h b = ground arith

pub and_false : (b : Bool) → false ≡ b && false
and_false true = refl
and_false false = refl

pub runs_of-ticks :
    (day hour d : ℕ) (hours : List ℕ)
    → any (ticks day hour) (runs_of d hours)
      ≡ ((d == day) && in_grid hour) && any (λ h. h == hour) hours
unfolding runs_of
runs_of-ticks day hour d [] = and_false ((d == day) && in_grid hour)
runs_of-ticks day hour d (h ∷ hours) =
    runs_from-ticks day hour d h h hours (omega arith)
    ∙ first_run ((d == day) && in_grid hour) hour h (any (λ h. h == hour) hours)
