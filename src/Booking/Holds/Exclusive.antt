-- ===== src/Booking/Holds/Exclusive.antt =====
-- At no instant is a coach double-booked: the occupancy of a coach's time stays at most one.
use kaktus.Base.{
  ℕ, suc, ◌+◌, ◌≤◌, ◌<◌, Bool, true, false, ◌&&◌, ◌||◌, none, some, List, [], ◌∷◌, ◌++◌, ◌≡◌, refl,
  arith, ok, Result-cases, any, ltb, leb, ◌==◌, if◌then◌else◌, Bool-cases, inl, inr, update_where,
}
use kaktus.Base.Sums.{sum_by, sum_by-append}
use kaktus.Offers.Scope.{Slot, BookingStatus}
use kaktus.Database.{
  SlotHold, HoldStatus, Booking, Milestone, Store, ⊤, ◌>>=◌, ◌>>◌, is_held_slot, is_scheduled,
}
use kaktus.Database.Keeps.{Keeps, bind-Keeps, modify-Keeps, for_each-Keeps, when-Keeps, keep_of_eq}
use kaktus.Booking.Holds.{
  hold_clashes, booking_clashes, is_taken, check_slot, HoldRequest, create_hold, acquire_holds,
  update_holds, update_bookings, extend_holds, release_holds, expire_stale_holds, create_booking,
  live_of_offer, convert_rows, convert_holds_to_bookings, id_of, milestone_of,
}

or_false : (a b : Bool) → (a || b) ≡ false → (a ≡ false) × (b ≡ false)
or_false a b h = ground arith

-- Whether a live hold, or a scheduled booking, takes the coach at the instant.
abbrev pub hold_takes : ℕ → ℕ → SlotHold → Bool
hold_takes coach t h =
    is_held_slot h.status && (h.coach_profile_id == coach) && leb h.starts_at t && ltb t h.ends_at

abbrev pub booking_takes : ℕ → ℕ → Booking → Bool
booking_takes coach t b =
    is_scheduled b.status && (b.coach_profile_id == coach) && leb b.starts_at t && ltb t b.ends_at

abbrev count_holds : ℕ → ℕ → List SlotHold → ℕ
count_holds coach t = sum_by (λ h. if hold_takes coach t h then 1 else 0)

abbrev count_bookings : ℕ → ℕ → List Booking → ℕ
count_bookings coach t = sum_by (λ b. if booking_takes coach t b then 1 else 0)

-- How many live holds and scheduled bookings take the coach at the instant.
abbrev pub occupancy : ℕ → ℕ → Store → ℕ
occupancy coach t s = count_holds coach t s.slot_holds + count_bookings coach t s.bookings

abbrev pub IsExclusive : Store → Type 0
IsExclusive s = (coach t : ℕ) → occupancy coach t s ≤ 1

-- A slot that clashes with nothing is free at each of its instants.
free_of_holds :
    (coach t : ℕ) (slot : Slot) (hs : List SlotHold)
    → any (hold_clashes coach slot) hs ≡ false
    → slot.starts_at ≤ t
    → t < slot.ends_at
    → count_holds coach t hs ≡ 0
free_of_holds coach t slot [] h p q = refl
free_of_holds coach t slot (x ∷ hs) h p q = ground (arith, free_of_holds coach t slot hs)

free_of_bookings :
    (coach t : ℕ) (slot : Slot) (bs : List Booking)
    → any (booking_clashes coach slot) bs ≡ false
    → slot.starts_at ≤ t
    → t < slot.ends_at
    → count_bookings coach t bs ≡ 0
free_of_bookings coach t slot [] h p q = refl
free_of_bookings coach t slot (x ∷ bs) h p q = ground (arith, free_of_bookings coach t slot bs)

check_slot-inv :
    (coach : ℕ) (slot : Slot) (s : Store) {r : ⊤ × Store}
    → check_slot coach slot s ≡ ok r
    → (is_taken coach slot s ≡ false) × (r.1 ≡ s)
unfolding check_slot
check_slot-inv coach slot s h = elim (Bool-cases (leb slot.ends_at slot.starts_at)) [
  | inl bad ↦ cc (rw bad at h)
  | inr good ↦ elim (Bool-cases (is_taken coach slot s)) [
    | inl taken ↦ cc (rw (good, taken) at h)
    | inr free ↦ (free, cc (rw (good, free) at h))
  ]
]

-- Holds whose status changes only away from HELD take no more time than before.
abbrev pub Frees : (SlotHold → SlotHold) → Type 0
Frees f =
    (coach t : ℕ) (h : SlotHold) → hold_takes coach t (f h) ≡ true → hold_takes coach t h ≡ true

Frees-one :
    (coach t : ℕ) (b : Bool) (f : SlotHold → SlotHold) (h : SlotHold)
    → Frees f
    → (if hold_takes coach t (if b then f h else h) then 1 else 0)
      ≤ (if hold_takes coach t h then 1 else 0)
Frees-one coach t false f h frees = omega arith
Frees-one coach t true f h frees = elim (Bool-cases (hold_takes coach t (f h))) [
  | inl taken ↦ rw (taken, frees coach t h taken) (omega arith)
  | inr free ↦ rw free (omega arith)
]

count-update_where :
    (coach t : ℕ) (p : SlotHold → Bool) (f : SlotHold → SlotHold) (hs : List SlotHold)
    → Frees f
    → count_holds coach t (update_where p f hs) ≤ count_holds coach t hs
count-update_where coach t p f [] frees = omega arith
count-update_where coach t p f (h ∷ hs) frees =
    omega (arith, Frees-one coach t (p h) f h frees, count-update_where coach t p f hs frees)

pub update_holds-IsExclusive :
    (p : SlotHold → Bool) (f : SlotHold → SlotHold) → Frees f → Keeps IsExclusive (update_holds p f)
unfolding update_holds
update_holds-IsExclusive p f frees =
    modify-Keeps IsExclusive _
      (λ s x coach t. omega (arith, x coach t, count-update_where coach t p f s.slot_holds frees))

-- Bookings that are changed take no more time than before.
abbrev pub Withdraws : (Booking → Booking) → Type 0
Withdraws f =
    (coach t : ℕ) (b : Booking)
    → booking_takes coach t (f b) ≡ true
    → booking_takes coach t b ≡ true

Withdraws-one :
    (coach t : ℕ) (b : Bool) (f : Booking → Booking) (x : Booking)
    → Withdraws f
    → (if booking_takes coach t (if b then f x else x) then 1 else 0)
      ≤ (if booking_takes coach t x then 1 else 0)
Withdraws-one coach t false f x w = omega arith
Withdraws-one coach t true f x w = elim (Bool-cases (booking_takes coach t (f x))) [
  | inl taken ↦ rw (taken, w coach t x taken) (omega arith)
  | inr free ↦ rw free (omega arith)
]

count_bookings-update_where :
    (coach t : ℕ) (p : Booking → Bool) (f : Booking → Booking) (bs : List Booking)
    → Withdraws f
    → count_bookings coach t (update_where p f bs) ≤ count_bookings coach t bs
count_bookings-update_where coach t p f [] w = omega arith
count_bookings-update_where coach t p f (b ∷ bs) w =
    omega (arith, Withdraws-one coach t (p b) f b w, count_bookings-update_where coach t p f bs w)

pub update_bookings-IsExclusive :
    (p : Booking → Bool) (f : Booking → Booking)
    → Withdraws f
    → Keeps IsExclusive (update_bookings p f)
unfolding update_bookings
update_bookings-IsExclusive p f w =
    modify-Keeps IsExclusive _ (λ s x coach t.
      omega (arith, x coach t, count_bookings-update_where coach t p f s.bookings w))

module _ (coach : ℕ) (slot : Slot) where
  free_instant :
      (s : Store) (t : ℕ)
      → is_taken coach slot s ≡ false
      → slot.starts_at ≤ t
      → t < slot.ends_at
      → occupancy coach t s ≡ 0
  free_instant s t free p q =
      let (no_hold, no_booking) =
        or_false (any (hold_clashes coach slot) s.slot_holds)
          (any (booking_clashes coach slot) s.bookings) free in
      omega (
        arith,
        free_of_holds coach t slot s.slot_holds no_hold p q,
        free_of_bookings coach t slot s.bookings no_booking p q,
      )

  -- One more row that takes only the free slot leaves every occupancy at most one.
  one_more :
      (s : Store) (c t : ℕ) (b : Bool)
      → IsExclusive s
      → is_taken coach slot s ≡ false
      → (b ≡ true → (coach ≡ c) × (slot.starts_at ≤ t) × (t < slot.ends_at))
      → occupancy c t s + (if b then 1 else 0) ≤ 1
  one_more s c t false x free only = omega (arith, x c t)
  one_more s c t true x free only =
      let (same, p, q) = only refl in
      let none_there = free_instant s t free p q in rw (← same) (omega (arith, none_there))

-- The rows that the two inserts add.
abbrev new_hold : HoldRequest → ℕ → Slot → ℕ → SlotHold
new_hold req expires_at slot id = record {
  id = id;
  coach_profile_id = req.coach_profile_id;
  student_profile_id = req.student_profile_id;
  offer_id = req.offer_id;
  starts_at = slot.starts_at;
  ends_at = slot.ends_at;
  expires_at = expires_at;
  status = HoldStatus.held;
}

abbrev new_booking : ℕ → List Milestone → SlotHold → ℕ → Booking
new_booking engagement milestones h id = record {
  id = id;
  coach_profile_id = h.coach_profile_id;
  student_profile_id = h.student_profile_id;
  engagement_id = some engagement;
  milestone_id = id_of (milestone_of h.starts_at milestones);
  starts_at = h.starts_at;
  ends_at = h.ends_at;
  status = BookingStatus.scheduled;
  coach_confirmed_at = none;
  student_confirmed_at = none;
}

taken_parts :
    (coach c t : ℕ) (slot : Slot)
    → ((coach == c) && leb slot.starts_at t && ltb t slot.ends_at) ≡ true
    → (coach ≡ c) × (slot.starts_at ≤ t) × (t < slot.ends_at)
taken_parts coach c t slot h = ground arith

pub create_hold-IsExclusive :
    (req : HoldRequest) (expires_at : ℕ) (slot : Slot)
    → Keeps IsExclusive (create_hold req expires_at slot)
unfolding create_hold
create_hold-IsExclusive req expires_at slot s r h x =
    let coach = req.coach_profile_id in
    let row = new_hold req expires_at slot s.next_id in
    elim (Result-cases (check_slot coach slot s)) [
      | inr (e, refused) ↦ cc (rw (refused, ◌>>=◌, ◌>>◌) at h)
      | inl ((_, u), passes) ↦
          let (free, same) = check_slot-inv coach slot s passes in
          let done = rw same at (rw (passes, ◌>>=◌, ◌>>◌) at h) in
          keep_of_eq IsExclusive
            (record s { slot_holds = s.slot_holds ++ (row ∷ []); next_id = suc s.next_id }) tt r
            done
            (λ c t. omega (
              arith,
              sum_by-append (λ k. if hold_takes c t k then 1 else 0) s.slot_holds (row ∷ []),
              one_more coach slot s c t (hold_takes c t row) x free (taken_parts coach c t slot),
            ))
    ]

pub create_booking-IsExclusive :
    (engagement : ℕ) (milestones : List Milestone) (hold : SlotHold)
    → Keeps IsExclusive (create_booking engagement milestones hold)
unfolding create_booking
create_booking-IsExclusive engagement milestones hold s r h x =
    let coach = hold.coach_profile_id in
    let slot : Slot = record { starts_at = hold.starts_at; ends_at = hold.ends_at } in
    let row = new_booking engagement milestones hold s.next_id in
    elim (Result-cases (check_slot coach slot s)) [
      | inr (e, refused) ↦ cc (rw (refused, ◌>>=◌, ◌>>◌) at h)
      | inl ((_, u), passes) ↦
          let (free, same) = check_slot-inv coach slot s passes in
          let done = rw same at (rw (passes, ◌>>=◌, ◌>>◌) at h) in
          keep_of_eq IsExclusive
            (record s { bookings = s.bookings ++ (row ∷ []); next_id = suc s.next_id }) tt r done
            (λ c t. omega (
              arith,
              sum_by-append (λ k. if booking_takes c t k then 1 else 0) s.bookings (row ∷ []),
              one_more coach slot s c t (booking_takes c t row) x free (taken_parts coach c t slot),
            ))
    ]

-- Acquiring holds that goes through leaves no coach double-booked, if none was before.
pub acquire_holds-IsExclusive :
    (req : HoldRequest) (now : ℕ) → Keeps IsExclusive (acquire_holds req now)
unfolding acquire_holds
acquire_holds-IsExclusive req now =
    for_each-Keeps IsExclusive _ req.slots (λ slot. create_hold-IsExclusive req _ slot)

-- Extending the holds of an offer leaves no coach double-booked, if none was before.
pub extend_holds-IsExclusive :
    (offer minutes now : ℕ) → Keeps IsExclusive (extend_holds offer minutes now)
unfolding extend_holds
extend_holds-IsExclusive offer minutes now = update_holds-IsExclusive _ _ (λ coach t h taken. taken)

-- So does releasing the holds of an offer.
pub release_holds-IsExclusive : (offer : ℕ) → Keeps IsExclusive (release_holds offer)
unfolding release_holds
release_holds-IsExclusive offer = update_holds-IsExclusive _ _ (λ coach t h taken. cc)

-- So does sweeping the holds that have run out.
pub expire_stale_holds-IsExclusive : (now : ℕ) → Keeps IsExclusive (expire_stale_holds now)
unfolding expire_stale_holds
expire_stale_holds-IsExclusive now = update_holds-IsExclusive _ _ (λ coach t h taken. cc)

mark_converted :
    (offer : ℕ)
    → Keeps IsExclusive
        (update_holds (live_of_offer offer) (λ h. record h { status = HoldStatus.converted }))
mark_converted offer = update_holds-IsExclusive _ _ (λ coach t h taken. cc)

convert_rows-IsExclusive :
    (offer engagement : ℕ) (milestones : List Milestone) (holds : List SlotHold)
    → Keeps IsExclusive (convert_rows offer engagement milestones holds)
unfolding convert_rows
convert_rows-IsExclusive offer engagement milestones holds =
    bind-Keeps IsExclusive _ _ (mark_converted offer)
      (λ _. for_each-Keeps IsExclusive _ holds (create_booking-IsExclusive engagement milestones))

-- Converting the holds of an offer to bookings leaves no coach double-booked, if none was before.
pub convert_holds_to_bookings-IsExclusive :
    (offer engagement : ℕ) (chosen : Milestone → Bool)
    → Keeps IsExclusive (convert_holds_to_bookings offer engagement chosen)
unfolding convert_holds_to_bookings
convert_holds_to_bookings-IsExclusive offer engagement chosen s =
    when-Keeps IsExclusive _ _ (convert_rows-IsExclusive offer engagement _ _) s
