-- ===== src/Services/Offers/Moved.antt =====
-- A call of transitionOffer that goes through reports a move that the state machine made.
use kaktus.Base.{
  ℕ, Option, none, some, ◌≡◌, refl, ok, Result-cases, Bool-cases, inl, inr, update_where,
}
use mathlib.Core.Path.{subst}
use kaktus.Offers.StateMachine.{transition, TransitionOutcome, OfferStatus, OfferEventName}
use kaktus.Offers.StateMachine.Diagram.{Edge, transition_sound}
use kaktus.Database.{Offer, Store, >>=-ok, ◌>>=◌}
use kaktus.Services.Offers.{
  LoadedOffer, TransitionRequest, TransitionResult, plan_of, plan_found, plan_transition,
  build_context, unexpected, transition_offer, offer_by_id, loaded, stands, moved,
  commit_transition,
}
use kaktus.Services.Offers.Winner.{plan_of-from, commit_transition-offers}

plan_of-Edge :
    (req : TransitionRequest) (now : ℕ) (l : LoadedOffer) {o : LoadedOffer}
    {plan : TransitionOutcome}
    → plan_of req now l ≡ ok (o, plan)
    → Edge l.offer.status req.event plan.to
unfolding plan_of
plan_of-Edge req now l {o} {plan} h =
    elim (Bool-cases (unexpected req.expected_status l.offer.status)) [
      | inl changed ↦ cc (rw changed at h)
      | inr same ↦
          elim (Result-cases (
            transition l.offer.status req.event req.actor
              (build_context l req.actor_profile_id now))) [
                | inr (e, fails) ↦ cc (rw (same, fails) at h)
                | inl (p, goes) ↦
                    let here : p ≡ plan = cc (rw (same, goes) at h) in
                    subst (λ x. Edge l.offer.status req.event x.to) here
                      (transition_sound l.offer.status req.event req.actor _ goes).0
              ]
    ]

plan_found-Edge :
    (req : TransitionRequest) (now : ℕ) (s : Store) (r : Option Offer) {o : LoadedOffer}
    {plan : TransitionOutcome}
    → plan_found req now s r ≡ ok (o, plan)
    → (row : Offer) × (r ≡ some row) × Edge row.status req.event plan.to × (plan.from ≡ row.status)
unfolding plan_found
plan_found-Edge req now s none h = cc h
plan_found-Edge req now s (some row) h =
    (row, refl, plan_of-Edge req now (loaded s row) h, plan_of-from req now (loaded s row) h)

-- The call moved an offer from a status to another by an event of the machine, and no other offer.
abbrev pub IsMoved : ℕ → OfferEventName → OfferStatus → OfferStatus → ℕ → Store → Store → Type 0
IsMoved id event from to now s t =
    (row : Offer) × (offer_by_id id s ≡ some row)
    × (row.status ≡ from)
    × Edge from event to
    × (t.offers ≡ update_where (stands id from) (moved to now) s.offers)

pub transition_offer-IsMoved :
    (req : TransitionRequest) (now : ℕ) (s : Store) {res : TransitionResult} {t : Store}
    → transition_offer req now s ≡ ok (res, t)
    → (from : OfferStatus) × (to : OfferStatus) × IsMoved req.offer_id req.event from to now s t
unfolding transition_offer plan_transition
transition_offer-IsMoved req now s {res} {t} h =
    elim (Result-cases (plan_found req now s (offer_by_id req.offer_id s))) [
      | inr (e, fails) ↦ cc (rw (fails, ◌>>=◌) at h)
      | inl ((o, plan), plans) ↦
          let (row, found, edge, same) =
            plan_found-Edge req now s (offer_by_id req.offer_id s) plans in
          let (work, u, commits, returns) =
            >>=-ok (commit_transition o plan req now) _ s (rw (plans, ◌>>=◌) at h) in
          let here : u ≡ t = cc returns in
          (
            row.status,
            plan.to,
            (
              row,
              found,
              refl,
              edge,
              subst
                  (λ f.
                    t.offers ≡ update_where (stands req.offer_id f) (moved plan.to now) s.offers)
                  same
                  (subst
                    (λ x.
                      x.offers
                      ≡ update_where (stands req.offer_id plan.from) (moved plan.to now) s.offers)
                    here (commit_transition-offers o plan req now s commits)),
            ),
          )
    ]
