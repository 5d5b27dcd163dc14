-- ===== src/Services/Offers/Winner.antt =====
-- Two callers that planned on the same snapshot: the compare-and-swap on the status lets the second
-- one commit only where the first left the status as it was.
use kaktus.Base.{
  ℕ, false, Option, none, some, List, [], ◌∷◌, ◌≡◌, refl, sym, ap, ◌∙◌, ok, err, arith, select,
  update_where, length, ◌==◌, Bool-cases, Result-cases, inl, inr, some_inj,
}
use kaktus.Offers.StateMachine.{OfferStatus, TransitionOutcome, transition, same_status}
use kaktus.Offers.StateMachine.Lookup.{transition-Passed}
use kaktus.Payments.Ledger.Flow.{post_group-inv}
use kaktus.Database.{Offer, Store, ⊤, ◌>>=◌, ◌>>◌, pure, concurrent_modification, >>=-err}
use kaktus.Database.Keeps.{bind-Keeps, pure-Keeps}
use kaktus.Services.Offers.{
  LoadedOffer, DeferredWork, TransitionRequest, cas_status, commit_transition, plan_of, plan_found,
  plan_transition, offer_by_id, loaded, moved, stands, unexpected, build_context, apply_effects,
  record_event,
}
use kaktus.Services.Offers.Closed.{IsClosed}
use kaktus.Services.Offers.Kept.{apply_effects-Keeps, record_event-Keeps}
use kaktus.Services.Offers.Invariants.{Apart-IsClosed}

-- A plan starts at the status that the offer has in the snapshot.
pub plan_of-from :
    (req : TransitionRequest) (now : ℕ) (l : LoadedOffer) {o : LoadedOffer}
    {plan : TransitionOutcome}
    → plan_of req now l ≡ ok (o, plan)
    → plan.from ≡ l.offer.status
unfolding plan_of
plan_of-from req now l {o} {plan} h =
    let status = l.offer.status in
    let ctx = build_context l req.actor_profile_id now in
    elim (Bool-cases (unexpected req.expected_status status)) [
      | inl other ↦ cc (rw other at h)
      | inr expected ↦ elim (Result-cases (transition status req.event req.actor ctx)) [
        | inr (e, refused) ↦ cc (rw (expected, refused) at h)
        | inl (p, goes) ↦
            let same : p ≡ plan = cc (rw (expected, goes) at h) in
            rw (← same) (
              ap (λ (x : TransitionOutcome). x.from)
                (transition-Passed status req.event req.actor ctx goes).outcome)
      ]
    ]

plan_found-from :
    (req : TransitionRequest) (now : ℕ) (s : Store) (r : Option Offer) {o : LoadedOffer}
    {plan : TransitionOutcome}
    → plan_found req now s r ≡ ok (o, plan)
    → (row : Offer) × (r ≡ some row) × (plan.from ≡ row.status)
unfolding plan_found
plan_found-from req now s none h = cc h
plan_found-from req now s (some row) h = (row, refl, plan_of-from req now (loaded s row) h)

plan_transition-from :
    (req : TransitionRequest) (now : ℕ) (s : Store) {o : LoadedOffer} {plan : TransitionOutcome}
    → plan_transition req now s ≡ ok (o, plan)
    → (row : Offer) × (offer_by_id req.offer_id s ≡ some row) × (plan.from ≡ row.status)
unfolding plan_transition
plan_transition-from req now s h = plan_found-from req now s (offer_by_id req.offer_id s) h

-- The effects leave the table of offers as the compare-and-swap made it.
offers-IsClosed : (os : List Offer) → IsClosed (λ s. s.offers ≡ os)
offers-IsClosed os =
    Apart-IsClosed (λ rows _. rows ≡ os)
      (λ es refs s r h same. ap (λ (u : Store). u.offers) (post_group-inv es refs s h).3 ∙ same)

cas_status-inv :
    (id : ℕ) (from : OfferStatus) (change : Offer → Offer) (s : Store) {r : ⊤ × Store}
    → cas_status id from change s ≡ ok r
    → r.1 ≡ record s { offers = update_where (stands id from) change s.offers }
unfolding cas_status
cas_status-inv id from change s h =
    elim (Bool-cases (length (select (stands id from) s.offers) == 1)) [
      | inl one ↦ cc (rw one at h)
      | inr other ↦ cc (rw other at h)
    ]

pub commit_transition-offers :
    (o : LoadedOffer) (plan : TransitionOutcome) (req : TransitionRequest) (now : ℕ) (s : Store)
    {work : List DeferredWork} {t : Store}
    → commit_transition o plan req now s ≡ ok (work, t)
    → t.offers ≡ update_where (stands req.offer_id plan.from) (moved plan.to now) s.offers
unfolding commit_transition
commit_transition-offers o plan req now s {work} {t} h =
    let os = update_where (stands req.offer_id plan.from) (moved plan.to now) s.offers in
    elim (Result-cases (cas_status req.offer_id plan.from (moved plan.to now) s)) [
      | inr (e, refused) ↦ cc (rw (refused, ◌>>=◌, ◌>>◌) at h)
      | inl ((_, u), swapped) ↦
          bind-Keeps (λ v. v.offers ≡ os)
            (apply_effects plan.effects o req.superseded_by_offer_id now)
            (λ w. record_event req plan >> pure w)
            (apply_effects-Keeps _ (offers-IsClosed os) _ _ _ _)
            (λ w.
              bind-Keeps (λ v. v.offers ≡ os) _ _
                (record_event-Keeps _ (offers-IsClosed os) req plan)
                (λ _. pure-Keeps (λ v. v.offers ≡ os) w))
            u (work, t) (rw (swapped, ◌>>=◌, ◌>>◌) at h)
            (ap (λ (v : Store). v.offers) (cas_status-inv req.offer_id plan.from _ s swapped))
    ]

-- Once every standing row has moved to another status, none stands.
none_stand :
    (id : ℕ) (from to : OfferStatus) (now : ℕ) (os : List Offer)
    → same_status to from ≡ false
    → select (stands id from) (update_where (stands id from) (moved to now) os) ≡ []
none_stand id from to now [] h = refl
none_stand id from to now (o ∷ os) h = elim (Bool-cases (stands id from o)) [
  | inl hit ↦ ground (arith, none_stand id from to now os h)
  | inr miss ↦ rw (miss, miss) (none_stand id from to now os h)
]

cas_status-lost :
    (id : ℕ) (from : OfferStatus) (change : Offer → Offer) (s : Store)
    → select (stands id from) s.offers ≡ []
    → cas_status id from change s ≡ err concurrent_modification
unfolding cas_status
cas_status-lost id from change s none_left = rw none_left refl

-- Two callers plan a transition of the same offer on the same snapshot. Where the first commits and
-- its plan changes the status, the commit of the second is refused as a concurrent modification and
-- so writes nothing.
pub one_winner :
    (req₁ req₂ : TransitionRequest) (now₁ now₂ : ℕ) (s : Store) {o₁ o₂ : LoadedOffer}
    {plan₁ plan₂ : TransitionOutcome} {work : List DeferredWork} {t : Store}
    → req₁.offer_id ≡ req₂.offer_id
    → plan_transition req₁ now₁ s ≡ ok (o₁, plan₁)
    → plan_transition req₂ now₂ s ≡ ok (o₂, plan₂)
    → same_status plan₁.to plan₁.from ≡ false
    → commit_transition o₁ plan₁ req₁ now₁ s ≡ ok (work, t)
    → commit_transition o₂ plan₂ req₂ now₂ t ≡ err concurrent_modification
unfolding commit_transition
one_winner req₁ req₂ now₁ now₂ s {o₁} {o₂} {plan₁} {plan₂} {work} {t} same p₁ p₂ moves h =
    let (row₁, found₁, from₁) = plan_transition-from req₁ now₁ s p₁ in
    let (row₂, found₂, from₂) = plan_transition-from req₂ now₂ s p₂ in
    let rows : row₁ ≡ row₂ =
      some_inj (sym found₁ ∙ ap (λ (id : ℕ). offer_by_id id s) same ∙ found₂) in
    let from : plan₁.from ≡ plan₂.from = from₁ ∙ ap (λ (r : Offer). r.status) rows ∙ sym from₂ in
    let gone : select (stands req₂.offer_id plan₂.from) t.offers ≡ [] =
      rw (← same, ← from, commit_transition-offers o₁ plan₁ req₁ now₁ s h)
        (none_stand req₁.offer_id plan₁.from plan₁.to now₁ s.offers moves) in
    >>=-err (cas_status req₂.offer_id plan₂.from (moved plan₂.to now₂)) _ t
      (cas_status-lost req₂.offer_id plan₂.from (moved plan₂.to now₂) t gone)
