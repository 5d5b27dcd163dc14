-- ===== src/Time/Windows.antt =====
-- lib/time/windows.ts: weekly windows in minutes from local midnight. Weekdays and minutes are
-- naturals, so that the checks of `isValidWindow` for integers and against negatives always hold.
pub mod Buckets
pub mod Minutes
pub mod Common
mod Tests
use kaktus.Base.{
  ℕ, ◌+◌, ◌-◌, min, max, Bool, true, false, ◌&&◌, ◌||◌, not, List, [], ◌∷◌, ◌++◌, map, leb, ltb,
  ◌==◌, select, if◌then◌else◌,
}

pub record TimeWindow : Type 0 where
  pub weekday : ℕ
  pub start_minute : ℕ
  pub end_minute : ℕ

abbrev pub minutes_per_day : ℕ
minutes_per_day = 1440

abbrev pub is_valid_window : TimeWindow → Bool
is_valid_window w =
    leb w.weekday 6 && leb w.end_minute minutes_per_day && ltb w.start_minute w.end_minute

-- A stable sort, as the array's.
unfoldable pub insert_by :
    (TimeWindow → TimeWindow → Bool) → TimeWindow → List TimeWindow → List TimeWindow
insert_by before x [] = x ∷ []
insert_by before x (y ∷ ys) =
    let rest = insert_by before x ys in if before y x then y ∷ rest else x ∷ y ∷ ys

unfoldable pub sort_by : (TimeWindow → TimeWindow → Bool) → List TimeWindow → List TimeWindow
sort_by before [] = []
sort_by before (x ∷ xs) = insert_by before x (sort_by before xs)

abbrev pub starts_before : TimeWindow → TimeWindow → Bool
starts_before a b = ltb a.start_minute b.start_minute

abbrev pub day_before : TimeWindow → TimeWindow → Bool
day_before a b = ltb a.weekday b.weekday || ((a.weekday == b.weekday) && starts_before a b)

-- The loop over a sorted bucket, `current` in hand.
unfoldable pub merge_from : TimeWindow → List TimeWindow → List TimeWindow
merge_from current [] = current ∷ []
merge_from current (next ∷ rest) =
    let joined : TimeWindow = record {
      weekday = current.weekday;
      start_minute = current.start_minute;
      end_minute = max current.end_minute next.end_minute;
    } in
    let merged = merge_from joined rest in
    let apart = merge_from next rest in
    if leb next.start_minute current.end_minute then merged else current ∷ apart

unfoldable pub merge_bucket : List TimeWindow → List TimeWindow
merge_bucket [] = []
merge_bucket (first ∷ rest) = merge_from first rest

-- The keys of the map, each where it was first set.
unfoldable pub days_of : List TimeWindow → List ℕ
days_of [] = []
days_of (w ∷ ws) = w.weekday ∷ select (λ d. not (d == w.weekday)) (days_of ws)

abbrev pub bucket : List TimeWindow → ℕ → List TimeWindow
bucket ws day = select (λ w. w.weekday == day) ws

unfoldable pub merge_days : List TimeWindow → List ℕ → List TimeWindow
merge_days ws [] = []
merge_days ws (day ∷ days) =
    merge_bucket (sort_by starts_before (bucket ws day)) ++ merge_days ws days

unfoldable pub normalize_valid : List TimeWindow → List TimeWindow
normalize_valid ws = sort_by day_before (merge_days ws (days_of ws))

unfoldable pub normalize_windows : List TimeWindow → List TimeWindow
normalize_windows windows = normalize_valid (select is_valid_window windows)

-- The sum of what each window lasts.
unfoldable pub sum_minutes : List TimeWindow → ℕ
sum_minutes [] = 0
sum_minutes (w ∷ ws) = w.end_minute - w.start_minute + sum_minutes ws

unfoldable pub total_minutes : List TimeWindow → ℕ
total_minutes windows = sum_minutes (normalize_windows windows)

abbrev pub common : TimeWindow → TimeWindow → TimeWindow
common l r = record {
  weekday = l.weekday;
  start_minute = max l.start_minute r.start_minute;
  end_minute = min l.end_minute r.end_minute;
}

unfoldable pub intersect_with : TimeWindow → List TimeWindow → List TimeWindow
intersect_with l [] = []
intersect_with l (r ∷ rs) =
    let rest = intersect_with l rs in
    if (l.weekday == r.weekday) && ltb (common l r).start_minute (common l r).end_minute
    then common l r ∷ rest
    else rest

unfoldable pub intersect_all : List TimeWindow → List TimeWindow → List TimeWindow
intersect_all [] rs = []
intersect_all (l ∷ ls) rs = intersect_with l rs ++ intersect_all ls rs

unfoldable pub intersect_windows : List TimeWindow → List TimeWindow → List TimeWindow
intersect_windows a b =
    normalize_windows (intersect_all (normalize_windows a) (normalize_windows b))

unfoldable pub overlap_minutes : List TimeWindow → List TimeWindow → ℕ
overlap_minutes a b = total_minutes (intersect_windows a b)

abbrev pub piece : Bool → ℕ → ℕ → ℕ → List TimeWindow
piece true day start end = record { weekday = day; start_minute = start; end_minute = end } ∷ []
piece false day start end = []

unfoldable pub subtract_window : TimeWindow → TimeWindow → List TimeWindow
subtract_window base cut =
    let start = max base.start_minute cut.start_minute in
    let end = min base.end_minute cut.end_minute in
    if not (base.weekday == cut.weekday) || leb end start
    then base ∷ []
    else piece (ltb base.start_minute start) base.weekday base.start_minute start
      ++ piece (ltb end base.end_minute) base.weekday end base.end_minute
