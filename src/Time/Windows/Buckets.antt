-- ===== src/Time/Windows/Buckets.antt =====
-- Sorting and merging a bucket changes no minute that it covers.
use kaktus.Base.{
  ℕ, ◌≤◌, max, Bool, true, false, ◌&&◌, ◌||◌, List, [], ◌∷◌, All, ◌≡◌, refl, sym, ap, ◌∙◌, arith,
  leb, ltb, ◌==◌, ==→eq, any, Bool-cases, inl, inr,
}
use mathlib.Core.Path.{subst}
use kaktus.Time.Windows.{
  TimeWindow, insert_by, sort_by, starts_before, merge_from, merge_bucket, bucket,
}

abbrev pub covers : ℕ → ℕ → TimeWindow → Bool
covers day minute w = (w.weekday == day) && (leb w.start_minute minute && ltb minute w.end_minute)

or_swap : (a b c : Bool) → a || (b || c) ≡ b || (a || c)
or_swap true true c = refl
or_swap true false c = refl
or_swap false true c = refl
or_swap false false c = refl

or_assoc : (a b c : Bool) → (a || b) || c ≡ a || (b || c)
or_assoc true b c = refl
or_assoc false b c = refl

any-insert_by :
    (p : TimeWindow → Bool) (before : TimeWindow → TimeWindow → Bool) (x : TimeWindow)
    (ys : List TimeWindow)
    → any p (insert_by before x ys) ≡ p x || any p ys
unfolding insert_by
any-insert_by p before x [] = refl
any-insert_by p before x (y ∷ ys) = elim (Bool-cases (before y x)) [
  | inl later ↦ rw (later, any-insert_by p before x ys) (or_swap (p y) (p x) (any p ys))
  | inr now ↦ rw now refl
]

pub any-sort_by :
    (p : TimeWindow → Bool) (before : TimeWindow → TimeWindow → Bool) (ws : List TimeWindow)
    → any p (sort_by before ws) ≡ any p ws
unfolding sort_by
any-sort_by p before [] = refl
any-sort_by p before (w ∷ ws) =
    any-insert_by p before w (sort_by before ws) ∙ ap (λ b. p w || b) (any-sort_by p before ws)

-- The windows of one day, sorted by their starts, the first not before `low`.
abbrev IsRun : ℕ → ℕ → List TimeWindow → Type 0
IsRun low day [] = Unit
IsRun low day (w ∷ ws) = (low ≤ w.start_minute) × (w.weekday ≡ day) × IsRun w.start_minute day ws

IsRun-lower :
    (low low' day : ℕ) (ws : List TimeWindow) → low' ≤ low → IsRun low day ws → IsRun low' day ws
IsRun-lower low low' day [] h run = tt
IsRun-lower low low' day (w ∷ ws) h (starts, same, run) = (omega arith, same, run)

≤_of_leb : (m n : ℕ) → leb m n ≡ true → m ≤ n
≤_of_leb m n h = ground arith

≤_of_ltb : (m n : ℕ) → ltb m n ≡ true → m ≤ n
≤_of_ltb m n h = ground arith

≤_of_not_ltb : (m n : ℕ) → ltb m n ≡ false → n ≤ m
≤_of_not_ltb m n h = ground arith

insert_by-IsRun :
    (low day : ℕ) (x : TimeWindow) (ws : List TimeWindow)
    → low ≤ x.start_minute
    → x.weekday ≡ day
    → IsRun low day ws
    → IsRun low day (insert_by starts_before x ws)
unfolding insert_by
insert_by-IsRun low day x [] h same run = (h, same, tt)
insert_by-IsRun low day x (y ∷ ys) h same (starts, same', run) =
    elim (Bool-cases (starts_before y x)) [
      | inl later ↦ rw later (
        starts,
        same',
        insert_by-IsRun y.start_minute day x ys (≤_of_ltb y.start_minute x.start_minute later) same
            run,
      )
      | inr now ↦ rw now (h, same, (≤_of_not_ltb y.start_minute x.start_minute now, same', run))
    ]

sort_by-IsRun :
    (day : ℕ) (ws : List TimeWindow)
    → All (λ (w : TimeWindow). w.weekday ≡ day) ws
    → IsRun 0 day (sort_by starts_before ws)
unfolding sort_by
sort_by-IsRun day [] h = tt
sort_by-IsRun day (w ∷ ws) (same, h) =
    insert_by-IsRun 0 day w (sort_by starts_before ws) (omega arith) same (sort_by-IsRun day ws h)

-- Two windows that touch cover what their union covers.
joined_bounds :
    (day minute weekday a b c d : ℕ)
    → a ≤ c
    → c ≤ b
    → (weekday == day) && (leb a minute && ltb minute (max b d))
      ≡ ((weekday == day) && (leb a minute && ltb minute b))
        || ((weekday == day) && (leb c minute && ltb minute d))
joined_bounds day minute weekday a b c d h k = ground arith

joined_covers :
    (day minute : ℕ) (w x : TimeWindow)
    → w.start_minute ≤ x.start_minute
    → x.start_minute ≤ w.end_minute
    → x.weekday ≡ w.weekday
    → (w.weekday == day)
        && (leb w.start_minute minute && ltb minute (max w.end_minute x.end_minute))
      ≡ covers day minute w || covers day minute x
joined_covers day minute w x h k same =
    joined_bounds day minute w.weekday w.start_minute w.end_minute x.start_minute x.end_minute h k
    ∙ ap
        (λ (d : ℕ).
          covers day minute w
          || ((d == day) && (leb x.start_minute minute && ltb minute x.end_minute)))
        (sym same)

any-merge_from :
    (day minute : ℕ) (w : TimeWindow) (ws : List TimeWindow)
    → IsRun w.start_minute w.weekday ws
    → any (covers day minute) (merge_from w ws) ≡ covers day minute w || any (covers day minute) ws
unfolding merge_from
any-merge_from day minute w [] run = refl
any-merge_from day minute w (x ∷ ws) (starts, same, run) =
    elim (Bool-cases (leb x.start_minute w.end_minute)) [
      | inl touches ↦
          let joined : TimeWindow = record {
            weekday = w.weekday;
            start_minute = w.start_minute;
            end_minute = max w.end_minute x.end_minute;
          } in
          let lower = IsRun-lower x.start_minute w.start_minute w.weekday ws starts run in
          rw touches (
            any-merge_from day minute joined ws lower
            ∙ ap (λ b. b || any (covers day minute) ws)
                (joined_covers day minute w x starts (≤_of_leb _ _ touches) same)
            ∙ or_assoc (covers day minute w) (covers day minute x) (any (covers day minute) ws))
      | inr apart ↦ rw apart (
          ap (λ b. covers day minute w || b)
            (any-merge_from day minute x ws
              (subst (λ d. IsRun x.start_minute d ws) (sym same) run)))
    ]

pub any-merge_bucket :
    (day minute : ℕ) (d : ℕ) (ws : List TimeWindow)
    → IsRun 0 d ws
    → any (covers day minute) (merge_bucket ws) ≡ any (covers day minute) ws
unfolding merge_bucket
any-merge_bucket day minute d [] run = refl
any-merge_bucket day minute d (w ∷ ws) (_, same, run) =
    any-merge_from day minute w ws (subst (λ x. IsRun w.start_minute x ws) (sym same) run)

bucket-weekday :
    (day : ℕ) (ws : List TimeWindow) → All (λ (w : TimeWindow). w.weekday ≡ day) (bucket ws day)
bucket-weekday day [] = tt
bucket-weekday day (w ∷ ws) = elim (Bool-cases (w.weekday == day)) [
  | inl here ↦ rw here (==→eq w.weekday day here, bucket-weekday day ws)
  | inr there ↦ rw there (bucket-weekday day ws)
]

-- A bucket that is sorted and merged covers what its windows cover.
pub any-bucket :
    (day minute d : ℕ) (ws : List TimeWindow)
    → any (covers day minute) (merge_bucket (sort_by starts_before (bucket ws d)))
      ≡ any (covers day minute) (bucket ws d)
any-bucket day minute d ws =
    any-merge_bucket day minute d (sort_by starts_before (bucket ws d))
      (sort_by-IsRun d (bucket ws d) (bucket-weekday d ws))
    ∙ any-sort_by (covers day minute) starts_before (bucket ws d)
