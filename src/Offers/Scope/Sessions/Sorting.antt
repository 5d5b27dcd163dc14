-- ===== src/Offers/Scope/Sessions/Sorting.antt =====
-- The sort of the sessions, and what a sorted list of sessions gives.
use kaktus.Base.{
  ℕ, zero, suc, ◌≤◌, ◌<◌, ◌≡◌, refl, ◌∙◌, ap, arith, List, [], ◌∷◌, leb, length, All, All-imp,
  Bool-cases, inl, inr, leb→le,
}
use kaktus.Offers.Scope.{Slot, insert_slot, sort_slots, start_of, last_end}

-- `slotSchema` admits only slots that end after they start.
abbrev pub IsOrdered : Slot → Type 0
IsOrdered s = s.starts_at < s.ends_at

abbrev pub IsSorted : List Slot → Type 0
IsSorted [] = Unit
IsSorted (s ∷ ss) = All (λ (t : Slot). s.starts_at ≤ t.starts_at) ss × IsSorted ss

length-insert_slot : (s : Slot) (ss : List Slot) → length (insert_slot s ss) ≡ suc (length ss)
unfolding insert_slot
length-insert_slot s [] = refl
length-insert_slot s (t ∷ ss) = ground (arith, length-insert_slot s ss)

pub length-sort_slots : (ss : List Slot) → length (sort_slots ss) ≡ length ss
unfolding sort_slots
length-sort_slots [] = refl
length-sort_slots (s ∷ ss) = length-insert_slot s (sort_slots ss) ∙ ap suc (length-sort_slots ss)

module _ (P : Slot → Type 0) where
  All-insert_slot : (s : Slot) (ss : List Slot) → P s → All P ss → All P (insert_slot s ss)
  unfolding insert_slot
  All-insert_slot s [] p h = (p, tt)
  All-insert_slot s (t ∷ ss) p h = elim (Bool-cases (leb s.starts_at t.starts_at)) [
    | inl first ↦ rw first (p, h)
    | inr later ↦ rw later (h.0, All-insert_slot s ss p h.1)
  ]

  All-uninsert_slot : (s : Slot) (ss : List Slot) → All P (insert_slot s ss) → P s × All P ss
  unfolding insert_slot
  All-uninsert_slot s [] h = (h.0, tt)
  All-uninsert_slot s (t ∷ ss) h = elim (Bool-cases (leb s.starts_at t.starts_at)) [
    | inl first ↦ rw first at h
    | inr later ↦
        let kept = rw later at h in
        let (p, rest) = All-uninsert_slot s ss kept.1 in (p, (kept.0, rest))
  ]

  pub All-sort_slots : (ss : List Slot) → All P ss → All P (sort_slots ss)
  unfolding sort_slots
  All-sort_slots [] h = tt
  All-sort_slots (s ∷ ss) h = All-insert_slot s (sort_slots ss) h.0 (All-sort_slots ss h.1)

  pub All-unsort_slots : (ss : List Slot) → All P (sort_slots ss) → All P ss
  unfolding sort_slots
  All-unsort_slots [] h = tt
  All-unsort_slots (s ∷ ss) h =
      let (p, rest) = All-uninsert_slot s (sort_slots ss) h in (p, All-unsort_slots ss rest)

insert_slot-IsSorted : (s : Slot) (ss : List Slot) → IsSorted ss → IsSorted (insert_slot s ss)
unfolding insert_slot
insert_slot-IsSorted s [] h = (tt, tt)
insert_slot-IsSorted s (t ∷ ss) h = elim (Bool-cases (leb s.starts_at t.starts_at)) [
  | inl first ↦
      let le = leb→le s.starts_at t.starts_at first in
      rw first (
        (
          le,
          All-imp (λ (u : Slot). t.starts_at ≤ u.starts_at)
              (λ (u : Slot). s.starts_at ≤ u.starts_at) (λ u k. omega arith) ss h.0,
        ),
        h,
      )
  | inr later ↦ rw later (
    All-insert_slot (λ (u : Slot). t.starts_at ≤ u.starts_at) s ss (ground arith) h.0,
    insert_slot-IsSorted s ss h.1,
  )
]

pub sort_slots-IsSorted : (ss : List Slot) → IsSorted (sort_slots ss)
unfolding sort_slots
sort_slots-IsSorted [] = tt
sort_slots-IsSorted (s ∷ ss) = insert_slot-IsSorted s (sort_slots ss) (sort_slots-IsSorted ss)

start_of-ge :
    (bound : ℕ) (ss : List Slot) (j : ℕ)
    → All (λ (t : Slot). bound ≤ t.starts_at) ss
    → j < length ss
    → bound ≤ start_of ss j
unfolding start_of
start_of-ge bound [] j h lt = absurd (omega arith)
start_of-ge bound (s ∷ ss) zero h lt = h.0
start_of-ge bound (s ∷ ss) (suc j) h lt = start_of-ge bound ss j h.1 (omega arith)

pub start_of-lt :
    (bound : ℕ) (ss : List Slot) (j : ℕ)
    → All (λ (t : Slot). t.starts_at < bound) ss
    → j < length ss
    → start_of ss j < bound
unfolding start_of
start_of-lt bound [] j h lt = absurd (omega arith)
start_of-lt bound (s ∷ ss) zero h lt = h.0
start_of-lt bound (s ∷ ss) (suc j) h lt = start_of-lt bound ss j h.1 (omega arith)

pub start_of_mono :
    (ss : List Slot) (i j : ℕ) → IsSorted ss → i ≤ j → j < length ss → start_of ss i ≤ start_of ss j
unfolding start_of
start_of_mono [] i j h le lt = absurd (omega arith)
start_of_mono (s ∷ ss) zero zero h le lt = omega arith
start_of_mono (s ∷ ss) zero (suc j) h le lt = start_of-ge s.starts_at ss j h.0 (omega arith)
start_of_mono (s ∷ ss) (suc i) zero h le lt = absurd (omega arith)
start_of_mono (s ∷ ss) (suc i) (suc j) h le lt =
    start_of_mono ss i j h.1 (omega arith) (omega arith)

-- Every session starts no earlier than the first of a sorted list.
pub starts_from_first :
    (ss : List Slot) → IsSorted ss → All (λ (t : Slot). start_of ss 0 ≤ t.starts_at) ss
unfolding start_of
starts_from_first [] h = tt
starts_from_first (s ∷ ss) h = (omega arith, h.0)

start-lt-last_end :
    (s : Slot) (ss : List Slot)
    → IsSorted (s ∷ ss)
    → All IsOrdered (s ∷ ss)
    → s.starts_at < last_end (s ∷ ss)
unfolding last_end
start-lt-last_end s [] h o = o.0
start-lt-last_end s (t ∷ ss) h o = omega (arith, start-lt-last_end t ss h.1 o.1, h.0.0)

-- Every session starts before the end of the last of a sorted list.
pub starts_before_last :
    (ss : List Slot)
    → IsSorted ss
    → All IsOrdered ss
    → All (λ (t : Slot). t.starts_at < last_end ss) ss
unfolding last_end
starts_before_last [] h o = tt
starts_before_last (s ∷ []) h o = (o.0, tt)
starts_before_last (s ∷ t ∷ ss) h o =
    (start-lt-last_end s (t ∷ ss) h o, starts_before_last (t ∷ ss) h.1 o.1)
