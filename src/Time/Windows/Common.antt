-- ===== src/Time/Windows/Common.antt =====
-- Normalized windows are valid, and what two sets of windows have in common.
use kaktus.Base.{
  ℕ, min, max, Bool, true, false, ◌&&◌, ◌||◌, List, [], ◌∷◌, All, All-append, All-select, ◌≡◌, refl,
  sym, ap, ◌∙◌, arith, leb, ltb, ◌==◌, any, select, Bool-cases, inl, inr, any-append,
}
use kaktus.Time.Windows.{
  TimeWindow, is_valid_window, insert_by, sort_by, starts_before, day_before, merge_from,
  merge_bucket, days_of, bucket, merge_days, normalize_valid, normalize_windows, intersect_with,
  intersect_all, intersect_windows,
}
use kaktus.Time.Windows.Buckets.{covers}
use kaktus.Time.Windows.Minutes.{normalize_windows-covers}

abbrev IsValid : TimeWindow → Type 0
IsValid w = is_valid_window w ≡ true

abbrev pub covered : ℕ → ℕ → List TimeWindow → Bool
covered day minute = any (λ w. is_valid_window w && covers day minute w)

insert_by-IsValid :
    (before : TimeWindow → TimeWindow → Bool) (x : TimeWindow) (ys : List TimeWindow)
    → IsValid x
    → All IsValid ys
    → All IsValid (insert_by before x ys)
unfolding insert_by
insert_by-IsValid before x [] h hs = (h, tt)
insert_by-IsValid before x (y ∷ ys) h (hy, hs) = elim (Bool-cases (before y x)) [
  | inl later ↦ rw later (hy, insert_by-IsValid before x ys h hs)
  | inr now ↦ rw now (h, (hy, hs))
]

sort_by-IsValid :
    (before : TimeWindow → TimeWindow → Bool) (ws : List TimeWindow)
    → All IsValid ws
    → All IsValid (sort_by before ws)
unfolding sort_by
sort_by-IsValid before [] h = tt
sort_by-IsValid before (w ∷ ws) (h, hs) =
    insert_by-IsValid before w (sort_by before ws) h (sort_by-IsValid before ws hs)

joined_valid :
    (x a b y c d : ℕ)
    → leb x 6 && leb b 1440 && ltb a b ≡ true
    → leb y 6 && leb d 1440 && ltb c d ≡ true
    → leb x 6 && leb (max b d) 1440 && ltb a (max b d) ≡ true
joined_valid x a b y c d h k = ground arith

merge_from-IsValid :
    (w : TimeWindow) (ws : List TimeWindow)
    → IsValid w
    → All IsValid ws
    → All IsValid (merge_from w ws)
unfolding merge_from
merge_from-IsValid w [] h hs = (h, tt)
merge_from-IsValid w (x ∷ ws) h (hx, hs) = elim (Bool-cases (leb x.start_minute w.end_minute)) [
  | inl touches ↦ rw touches (
      merge_from-IsValid _ ws
        (joined_valid w.weekday w.start_minute w.end_minute x.weekday x.start_minute x.end_minute h
          hx)
        hs)
  | inr apart ↦ rw apart (h, merge_from-IsValid x ws hx hs)
]

merge_bucket-IsValid : (ws : List TimeWindow) → All IsValid ws → All IsValid (merge_bucket ws)
unfolding merge_bucket
merge_bucket-IsValid [] h = tt
merge_bucket-IsValid (w ∷ ws) (h, hs) = merge_from-IsValid w ws h hs

merge_days-IsValid :
    (ws : List TimeWindow) (days : List ℕ) → All IsValid ws → All IsValid (merge_days ws days)
unfolding merge_days
merge_days-IsValid ws [] h = tt
merge_days-IsValid ws (d ∷ days) h =
    All-append IsValid _ (merge_days ws days)
      (merge_bucket-IsValid _ (
        sort_by-IsValid starts_before (bucket ws d)
          (All-select IsValid (λ (w : TimeWindow). w.weekday == d) ws h)))
      (merge_days-IsValid ws days h)

select-IsValid : (ws : List TimeWindow) → All IsValid (select is_valid_window ws)
select-IsValid [] = tt
select-IsValid (w ∷ ws) = elim (Bool-cases (is_valid_window w)) [
  | inl good ↦ rw good (good, select-IsValid ws)
  | inr bad ↦ rw bad (select-IsValid ws)
]

normalize_windows-IsValid : (ws : List TimeWindow) → All IsValid (normalize_windows ws)
unfolding normalize_windows normalize_valid
normalize_windows-IsValid ws =
    let good = select is_valid_window ws in
    sort_by-IsValid day_before (merge_days good (days_of good))
      (merge_days-IsValid good (days_of good) (select-IsValid ws))

common_covers :
    (day m x a b y c d : ℕ)
    → leb x 6 && leb b 1440 && ltb a b ≡ true
    → (x == y) && ltb (max a c) (min b d) ≡ true
    → (leb x 6 && leb (min b d) 1440 && ltb (max a c) (min b d))
        && ((x == day) && (leb (max a c) m && ltb m (min b d)))
      ≡ ((x == day) && (leb a m && ltb m b)) && ((y == day) && (leb c m && ltb m d))
common_covers day m x a b y c d h k = ground arith

nothing_common :
    (day m x a b y c d : ℕ)
    → (x == y) && ltb (max a c) (min b d) ≡ false
    → ((x == day) && (leb a m && ltb m b)) && ((y == day) && (leb c m && ltb m d)) ≡ false
nothing_common day m x a b y c d k = ground arith

split_or : (a b c : Bool) → (a && b) || (a && c) ≡ a && (b || c)
split_or true b c = refl
split_or false b c = refl

intersect_with-covers :
    (day minute : ℕ) (l : TimeWindow) (rs : List TimeWindow)
    → IsValid l
    → covered day minute (intersect_with l rs) ≡ covers day minute l && any (covers day minute) rs
unfolding intersect_with
intersect_with-covers day minute l [] h = ground arith
intersect_with-covers day minute l (r ∷ rs) h =
    let rest = intersect_with-covers day minute l rs h in
    let x = l.weekday in
    let y = r.weekday in
    let a = l.start_minute in
    let b = l.end_minute in
    let c = r.start_minute in
    let d = r.end_minute in
    let both = split_or (covers day minute l) (covers day minute r) (any (covers day minute) rs) in
    elim (Bool-cases ((x == y) && ltb (max a c) (min b d))) [
      | inl meets ↦ rw meets (rw (common_covers day minute x a b y c d h meets, rest) both)
      | inr apart ↦ rw apart (
          rest
          ∙ ap (λ z. z || (covers day minute l && any (covers day minute) rs))
              (sym (nothing_common day minute x a b y c d apart))
          ∙ both)
    ]

intersect_all-covers :
    (day minute : ℕ) (ls rs : List TimeWindow)
    → All IsValid ls
    → covered day minute (intersect_all ls rs)
      ≡ any (covers day minute) ls && any (covers day minute) rs
unfolding intersect_all
intersect_all-covers day minute [] rs h = refl
intersect_all-covers day minute (l ∷ ls) rs (h, hs) =
    any-append (λ w. is_valid_window w && covers day minute w) (intersect_with l rs)
      (intersect_all ls rs)
    ∙ rw (intersect_with-covers day minute l rs h, intersect_all-covers day minute ls rs hs)
        (gather (covers day minute l) (any (covers day minute) ls) (any (covers day minute) rs))
  where
    gather : (a b c : Bool) → (a && c) || (b && c) ≡ (a || b) && c
    gather true b true = refl
    gather true true false = refl
    gather true false false = refl
    gather false b c = refl

-- The intersection of two sets of windows covers a minute exactly when a valid window of the one and
-- a valid window of the other cover it.
pub intersect_windows-covers :
    (day minute : ℕ) (a b : List TimeWindow)
    → any (covers day minute) (intersect_windows a b) ≡ covered day minute a && covered day minute b
unfolding intersect_windows
intersect_windows-covers day minute a b =
    normalize_windows-covers day minute (intersect_all (normalize_windows a) (normalize_windows b))
    ∙ intersect_all-covers day minute (normalize_windows a) (normalize_windows b)
        (normalize_windows-IsValid a)
    ∙ rw (normalize_windows-covers day minute a, normalize_windows-covers day minute b) refl
