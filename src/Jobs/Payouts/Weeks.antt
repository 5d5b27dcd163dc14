-- ===== src/Jobs/Payouts/Weeks.antt =====
-- The key of a week names exactly the seven days from a Monday to a Sunday.
use kaktus.Base.{ℕ, ◌+◌, ◌-◌, ◌*◌, ◌/◌, ◌≤◌, ◌≡◌, sym, ap, ◌∙◌, arith, ◌↔◌}
use kaktus.Jobs.Payouts.{day_num, thursday, iso_week}

-- The Monday of week `n` is day `7 * n - 3`, so its Thursday is day `7 * n`.
abbrev week_index : ℕ → ℕ
week_index now = (now / 86400000 + 3) / 7

thursday_lem : (day : ℕ) → thursday day ≡ 7 * ((day + 3) / 7)
unfolding thursday day_num
thursday_lem day = ground arith

same_number :
    (m n start : ℕ)
    → start ≤ 7 * m
    → start ≤ 7 * n
    → (7 * m - start + 1 + 6) / 7 ≡ (7 * n - start + 1 + 6) / 7
    → m ≡ n
same_number m n start h k e = omega arith

abbrev key_of : (ℕ → ℕ) → (ℕ → ℕ) → ℕ → ℕ × ℕ
key_of year_of year_start d = (year_of d, (d - year_start (year_of d) + 1 + 6) / 7)

iso_week_lem :
    (year_of year_start : ℕ → ℕ) (t : ℕ)
    → iso_week year_of year_start t ≡ key_of year_of year_start (7 * week_index t)
unfolding iso_week
iso_week_lem year_of year_start t = ap (key_of year_of year_start) (thursday_lem (t / 86400000))

key_of-eq :
    (year_of year_start : ℕ → ℕ) (m n : ℕ)
    → ((day : ℕ) → year_start (year_of day) ≤ day)
    → key_of year_of year_start (7 * m) ≡ key_of year_of year_start (7 * n)
    → m ≡ n
key_of-eq year_of year_start m n starts e =
    let years : year_of (7 * m) ≡ year_of (7 * n) = ap (λ (k : ℕ × ℕ). k.0) e in
    let numbers = ap (λ (k : ℕ × ℕ). k.1) e in
    same_number m n (year_start (year_of (7 * n))) (rw years at (starts (7 * m))) (starts (7 * n))
      (rw years at numbers)

-- Two instants have the same week in their payout key exactly when they are in the same week from
-- Monday to Sunday (in UTC): also where a year ends within the week. Of the calendar it is used that
-- a year does not start after a day that is in it.
pub iso_week_iff :
    (year_of year_start : ℕ → ℕ)
    → ((day : ℕ) → year_start (year_of day) ≤ day)
    → (t u : ℕ)
    → (iso_week year_of year_start t ≡ iso_week year_of year_start u)
      ↔ ((t / 86400000 + 3) / 7 ≡ (u / 86400000 + 3) / 7)
iso_week_iff year_of year_start starts t u = (
  (λ e.
      key_of-eq year_of year_start (week_index t) (week_index u) starts
        (sym (iso_week_lem year_of year_start t) ∙ e ∙ iso_week_lem year_of year_start u)),
  (λ e.
      iso_week_lem year_of year_start t
      ∙ ap (λ n. key_of year_of year_start (7 * n)) e
      ∙ sym (iso_week_lem year_of year_start u)),
)
