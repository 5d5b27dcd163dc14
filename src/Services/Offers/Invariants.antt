-- ===== src/Services/Offers/Invariants.antt =====
-- `transitionOffer` leaves the ledger balanced and the calendars free of double bookings.
use kaktus.Base.{ℕ, Bool, List, ◌≡◌, sym, ok}
use mathlib.Core.Path.{subst}
use kaktus.Offers.StateMachine.{OfferStatus, TransitionOutcome}
use kaktus.Offers.Scope.{Slot}
use kaktus.Booking.Holds.{
  update_bookings, HoldRequest, acquire_holds, create_hold, check_slot, update_holds,
  convert_holds_to_bookings, convert_rows, create_booking, is_taken,
}
use kaktus.Booking.Holds.Exclusive.{
  IsExclusive, acquire_holds-IsExclusive, convert_holds_to_bookings-IsExclusive,
  update_holds-IsExclusive, update_bookings-IsExclusive,
}
use kaktus.Payments.Ledger.{EntryInput, Refs, post_group}
use kaktus.Payments.Ledger.Flow.{post_group-inv}
use kaktus.Payments.Ledger.Balance.{IsBalanced, post_group-IsBalanced}
use kaktus.Database
use kaktus.Database.Samples
use kaktus.Database.{
  Offer, Booking, Milestone, SlotHold, LedgerEntry, Store, Tx, ⊤, ◌>>=◌, ◌>>◌, pure,
}
use kaktus.Database.Keeps.{
  Keeps, bind-Keeps, pure-Keeps, throw_if-Keeps, lift-Keeps, modify-Keeps, for_each-Keeps,
  when-Keeps, keep_of_eq,
}
use kaktus.Services.Offers.{
  LoadedOffer, TransitionRequest, TransitionResult, cas_status, commit_transition, commit_plan,
  plan_transition, transition_offer,
}
use kaktus.Services.Run.{in_transaction}
use kaktus.Services.Run.Leaves.{Leaves, in_transaction-Leaves}
use kaktus.Services.Offers.Closed.{IsClosed}
use kaktus.Services.Offers.Kept.{apply_effects-Keeps, record_event-Keeps}

-- What concerns only the offers and the ledger is kept by everything that concerns the calendar.
module _ (Q : List Offer → List LedgerEntry → Type 0) where
  abbrev pub Apart : Store → Type 0
  Apart s = Q s.offers s.ledger_entries

  check_slot-Keeps : (coach : ℕ) (slot : Slot) → Keeps Apart (check_slot coach slot)
  unfolding check_slot
  check_slot-Keeps coach slot =
      bind-Keeps Apart (Database.throw_if _ _) _ (throw_if-Keeps Apart _ _)
        (λ _ s. throw_if-Keeps Apart (is_taken coach slot s) _ s)

  update_holds-Keeps :
      (p : SlotHold → Bool) (f : SlotHold → SlotHold) → Keeps Apart (update_holds p f)
  unfolding update_holds
  update_holds-Keeps p f = modify-Keeps Apart _ (λ s h. h)

  acquire_holds-Keeps : (req : HoldRequest) (now : ℕ) → Keeps Apart (acquire_holds req now)
  unfolding acquire_holds create_hold
  acquire_holds-Keeps req now = for_each-Keeps Apart _ req.slots (λ slot.
      bind-Keeps Apart (check_slot req.coach_profile_id slot) _ (check_slot-Keeps _ slot)
        (λ _ s r h p. keep_of_eq Apart _ tt r h p))

  convert-Keeps :
      (offer engagement : ℕ) (chosen : Milestone → Bool)
      → Keeps Apart (convert_holds_to_bookings offer engagement chosen)
  unfolding convert_holds_to_bookings convert_rows create_booking
  convert-Keeps offer engagement chosen s =
      when-Keeps Apart _ _
        (bind-Keeps Apart _ _ (update_holds-Keeps _ _) (λ _. for_each-Keeps Apart _ _ (λ h.
          bind-Keeps Apart (check_slot h.coach_profile_id _) _ (check_slot-Keeps _ _)
            (λ _ t r e p. keep_of_eq Apart _ tt r e p))))
        s

  update_bookings-Keeps :
      (p : Booking → Bool) (f : Booking → Booking) → Keeps Apart (update_bookings p f)
  unfolding update_bookings
  update_bookings-Keeps p f = modify-Keeps Apart _ (λ s h. h)

  pub Apart-IsClosed :
      ((es : List EntryInput) (refs : Refs) → Keeps Apart (post_group es refs)) → IsClosed Apart
  Apart-IsClosed posts = record {
    rest =
        λ s t os hs bs ls p. subst (λ l. Q t.offers l) ls (subst (λ o. Q o s.ledger_entries) os p);
    posts = posts;
    frees = λ p f _. update_holds-Keeps p f;
    acquires = acquire_holds-Keeps;
    converts = convert-Keeps;
    withdraws = λ p f _. update_bookings-Keeps p f;
  }

pub IsBalanced-IsClosed : IsClosed IsBalanced
IsBalanced-IsClosed =
    Apart-IsClosed (λ _ es. IsBalanced (record Samples.empty_store { ledger_entries = es }))
      (λ es refs s r h balanced. post_group-IsBalanced es refs s h balanced)

post_group-IsExclusive :
    (es : List EntryInput) (refs : Refs) → Keeps IsExclusive (post_group es refs)
post_group-IsExclusive es refs s r h x = subst IsExclusive (sym (post_group-inv es refs s h).3) x

pub IsExclusive-IsClosed : IsClosed IsExclusive
IsExclusive-IsClosed = record {
  rest = λ s t os hs bs ls x.
      subst (λ b. IsExclusive (record t { bookings = b })) bs
        (subst (λ h. IsExclusive (record s { slot_holds = h })) hs x);
  posts = post_group-IsExclusive;
  frees = update_holds-IsExclusive;
  acquires = acquire_holds-IsExclusive;
  converts = convert_holds_to_bookings-IsExclusive;
  withdraws = update_bookings-IsExclusive;
}

-- An invariant that does not read the offers is kept by the whole call.
module _ (P : Store → Type 0) (c : IsClosed P)
    (free : (s : Store) (os : List Offer) → P s → P (record s { offers = os })) where
  cas_status-Keeps :
      (id : ℕ) (from : OfferStatus) (change : Offer → Offer) → Keeps P (cas_status id from change)
  unfolding cas_status
  cas_status-Keeps id from change s =
      bind-Keeps P (Database.throw_if _ _) _ (throw_if-Keeps P _ _)
        (λ _. modify-Keeps P _ (λ t p. free t _ p)) s

  commit_transition-Keeps :
      (o : LoadedOffer) (plan : TransitionOutcome) (req : TransitionRequest) (now : ℕ)
      → Keeps P (commit_transition o plan req now)
  unfolding commit_transition
  commit_transition-Keeps o plan req now = bind-Keeps P _ _ (cas_status-Keeps _ _ _) (λ _.
      bind-Keeps P _ _ (apply_effects-Keeps P c _ _ _ _)
        (λ work. bind-Keeps P _ _ (record_event-Keeps P c req plan) (λ _. pure-Keeps P work)))

  commit_plan-Keeps :
      (req : TransitionRequest) (now : ℕ) (plan : LoadedOffer × TransitionOutcome)
      → Keeps P (commit_plan req now plan)
  commit_plan-Keeps req now (o, plan) =
      bind-Keeps P _ _ (commit_transition-Keeps o plan req now) (λ work. pure-Keeps P _)

  pub transition_offer-Keeps :
      (req : TransitionRequest) (now : ℕ) → Keeps P (transition_offer req now)
  unfolding transition_offer
  transition_offer-Keeps req now s =
      let plan = plan_transition req now s in
      bind-Keeps P (Database.lift (λ e. e) plan) _ (lift-Keeps P _ plan) (commit_plan-Keeps req now)
        s

  pub transition_offer-Leaves :
      (req : TransitionRequest) (now : ℕ) → Leaves P (in_transaction (transition_offer req now))
  transition_offer-Leaves req now =
      in_transaction-Leaves P (transition_offer req now) (transition_offer-Keeps req now)

-- A call of `transitionOffer` that goes through, whatever the event and its side effects, leaves
-- every entry group of the ledger balanced and no coach double-booked, if so they were before.
pub transition_offer_sound :
    (req : TransitionRequest) (now : ℕ) (s : Store) {res : TransitionResult} {t : Store}
    → transition_offer req now s ≡ ok (res, t)
    → IsBalanced s
    → IsExclusive s
    → IsBalanced t × IsExclusive t
transition_offer_sound req now s {res} {t} h balanced exclusive = (
  transition_offer-Keeps IsBalanced IsBalanced-IsClosed (λ u os p. p) req now s (res, t) h balanced,
  transition_offer-Keeps IsExclusive IsExclusive-IsClosed (λ u os p. p) req now s (res, t) h
      exclusive,
)
