-- ===== src/Time/Windows/Minutes.antt =====
-- The windows as sets of minutes: what each operation covers.
use kaktus.Base.{
  ℕ, min, max, Bool, true, false, ◌&&◌, ◌||◌, not, List, [], ◌∷◌, ◌≡◌, refl, ◌∙◌, arith, leb, ltb,
  ◌==◌, any, select, Bool-cases, inl, inr, any-append, any-select, any-ext,
}
use kaktus.Time.Windows.{
  TimeWindow, is_valid_window, sort_by, starts_before, day_before, merge_bucket, days_of, bucket,
  merge_days, normalize_valid, normalize_windows, subtract_window, piece,
}
use kaktus.Time.Windows.Buckets.{covers, any-sort_by, any-bucket}

-- A bucket covers minutes of its own day only.
bucket-covers :
    (day minute d : ℕ) (ws : List TimeWindow)
    → any (covers day minute) (bucket ws d) ≡ (d == day) && any (covers day minute) ws
bucket-covers day minute d [] = ground arith
bucket-covers day minute d (w ∷ ws) = elim (Bool-cases (w.weekday == d)) [
  | inl here ↦ rw (here, bucket-covers day minute d ws) (own_day day d w.weekday _ _ here)
  | inr there ↦ rw (there, bucket-covers day minute d ws) (other_day day d w.weekday _ _ there)
]
  where
    own_day :
        (day d x : ℕ) (a b : Bool)
        → (x == d) ≡ true
        → ((x == day) && a) || ((d == day) && b) ≡ (d == day) && (((x == day) && a) || b)
    own_day day d x a b h = ground arith

    other_day :
        (day d x : ℕ) (a b : Bool)
        → (x == d) ≡ false
        → (d == day) && b ≡ (d == day) && (((x == day) && a) || b)
    other_day day d x a b h = ground arith

merge_days-covers :
    (day minute : ℕ) (ws : List TimeWindow) (days : List ℕ)
    → any (covers day minute) (merge_days ws days)
      ≡ any (λ d. d == day) days && any (covers day minute) ws
unfolding merge_days
merge_days-covers day minute ws [] = refl
merge_days-covers day minute ws (d ∷ days) =
    any-append (covers day minute) (merge_bucket (sort_by starts_before (bucket ws d)))
      (merge_days ws days)
    ∙ rw
        (
          any-bucket day minute d ws,
          bucket-covers day minute d ws,
          merge_days-covers day minute ws days,
        )
        (spread (d == day) (any (λ d. d == day) days) (any (covers day minute) ws))
  where
    spread : (a b c : Bool) → (a && c) || (b && c) ≡ (a || b) && c
    spread true true true = refl
    spread true true false = refl
    spread true false true = refl
    spread true false false = refl
    spread false b c = refl

days_of-covers :
    (day minute : ℕ) (ws : List TimeWindow)
    → any (λ d. d == day) (days_of ws) && any (covers day minute) ws ≡ any (covers day minute) ws
unfolding days_of
days_of-covers day minute [] = refl
days_of-covers day minute (w ∷ ws) = elim (Bool-cases (w.weekday == day)) [
  | inl here ↦ rw here refl
  | inr there ↦
      rw
        (
          there,
          any-select (λ d. d == day) (λ d. not (d == w.weekday)) (days_of ws),
          any-ext (λ d. not (d == w.weekday) && (d == day)) (λ d. d == day)
              (λ d. kept day d w.weekday there) (days_of ws),
        )
        (days_of-covers day minute ws)
]
  where
    kept : (day d x : ℕ) → (x == day) ≡ false → not (d == x) && (d == day) ≡ (d == day)
    kept day d x h = ground arith

valid_covers :
    (day minute : ℕ) (ws : List TimeWindow)
    → any (covers day minute) (normalize_valid ws) ≡ any (covers day minute) ws
unfolding normalize_valid
valid_covers day minute ws =
    any-sort_by (covers day minute) day_before (merge_days ws (days_of ws))
    ∙ merge_days-covers day minute ws (days_of ws)
    ∙ days_of-covers day minute ws

-- Normalizing windows changes no minute of the week: the result covers a minute exactly when a valid
-- window of the input does, however the windows overlap, touch or repeat.
pub normalize_windows-covers :
    (day minute : ℕ) (ws : List TimeWindow)
    → any (covers day minute) (normalize_windows ws)
      ≡ any (λ w. is_valid_window w && covers day minute w) ws
unfolding normalize_windows
normalize_windows-covers day minute ws =
    valid_covers day minute (select is_valid_window ws)
    ∙ any-select (covers day minute) is_valid_window ws

any-piece :
    (day minute : ℕ) (b : Bool) (d start end : ℕ)
    → any (covers day minute) (piece b d start end)
      ≡ b && ((d == day) && (leb start minute && ltb minute end))
any-piece day minute true d start end = ground arith
any-piece day minute false d start end = refl

apart_covers :
    (day m x y a b c d : ℕ)
    → not (x == y) || leb (min b d) (max a c) ≡ true
    → ((x == day) && (leb a m && ltb m b)) || false
      ≡ ((x == day) && (leb a m && ltb m b)) && not ((y == day) && (leb c m && ltb m d))
apart_covers day m x y a b c d h = ground arith

cut_covers :
    (day m x y a b c d : ℕ)
    → not (x == y) || leb (min b d) (max a c) ≡ false
    → (ltb a (max a c) && ((x == day) && (leb a m && ltb m (max a c))))
        || (ltb (min b d) b && ((x == day) && (leb (min b d) m && ltb m b)))
      ≡ ((x == day) && (leb a m && ltb m b)) && not ((y == day) && (leb c m && ltb m d))
cut_covers day m x y a b c d h = ground arith

-- What is left of a window covers a minute exactly when the window does and the cut does not.
pub subtract_window-covers :
    (day minute : ℕ) (base cut : TimeWindow)
    → any (covers day minute) (subtract_window base cut)
      ≡ covers day minute base && not (covers day minute cut)
unfolding subtract_window
subtract_window-covers day minute base cut =
    let x = base.weekday in
    let y = cut.weekday in
    let a = base.start_minute in
    let b = base.end_minute in
    let c = cut.start_minute in
    let d = cut.end_minute in
    elim (Bool-cases (not (x == y) || leb (min b d) (max a c))) [
      | inl apart ↦ rw apart (apart_covers day minute x y a b c d apart)
      | inr cuts ↦ rw cuts (
          any-append (covers day minute) (piece (ltb a (max a c)) x a (max a c))
            (piece (ltb (min b d) b) x (min b d) b)
          ∙ rw
              (
                any-piece day minute (ltb a (max a c)) x a (max a c),
                any-piece day minute (ltb (min b d) b) x (min b d) b,
              )
              (cut_covers day minute x y a b c d cuts))
    ]
