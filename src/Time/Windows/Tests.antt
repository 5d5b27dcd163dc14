-- ===== src/Time/Windows/Tests.antt =====
-- Two windows of a Monday that touch, one that lies in them, and one that is no window.
use kaktus.Base.{ℕ, ◌&&◌, List, [], ◌∷◌, any, ◌≡◌, refl}
use kaktus.Time.Windows.{
  TimeWindow, is_valid_window, normalize_windows, normalize_valid, days_of, merge_days,
  merge_bucket, merge_from, sort_by, insert_by, total_minutes, sum_minutes, intersect_windows,
}
use kaktus.Time.Windows.Buckets.{covers}
use kaktus.Time.Windows.Minutes.{normalize_windows-covers}
use kaktus.Time.Windows.Common.{covered, intersect_windows-covers}

abbrev on_monday : ℕ → ℕ → TimeWindow
on_monday start end = record { weekday = 1; start_minute = start; end_minute = end }

abbrev morning : List TimeWindow
morning = on_monday 600 660 ∷ on_monday 540 600 ∷ on_monday 550 560 ∷ on_monday 700 690 ∷ []

merged : (normalize_windows morning ≡ on_monday 540 660 ∷ []) × (total_minutes morning ≡ 120)
unfolding normalize_windows normalize_valid days_of merge_days merge_bucket merge_from sort_by
    insert_by total_minutes sum_minutes
merged = (refl, refl)

normalize_windows-covers_example :
    any (covers 1 605) (normalize_windows morning)
    ≡ any (λ w. is_valid_window w && covers 1 605 w) morning
normalize_windows-covers_example = normalize_windows-covers 1 605 morning

intersect_windows-covers_example :
    any (covers 1 605) (intersect_windows morning (on_monday 600 720 ∷ []))
    ≡ covered 1 605 morning && covered 1 605 (on_monday 600 720 ∷ [])
intersect_windows-covers_example = intersect_windows-covers 1 605 morning (on_monday 600 720 ∷ [])
