-- ===== src/Offers/StateMachine/Drawing.antt =====
-- The diagram in the header comment of lib/offers/state-machine.ts, and `transition` against it.
use kaktus.Base.{some, ◌≡◌, refl, ◌⊎◌, inl, inr, arith, ◌↔◌}
use kaktus.Offers.StateMachine.Types.{
  OfferStatus, draft, offered, countered, accepted, paid_in_escrow, active, completed, disputed,
  refunded, cancelled, expired, ActorRole, OfferEventName, submit, counter, accept,
  payment_captured, engagement_started, all_milestones_released, open_dispute,
  resolve_dispute_release, resolve_dispute_refund, refund, cancel, expire, TransitionContext,
}
use kaktus.Offers.StateMachine.{transition}
use kaktus.Offers.StateMachine.Diagram.{Edge, Permits, Meets, IsTerminal, target, table_iff}

-- The diagram of lib/offers/state-machine.ts as it is drawn: OFFERED and COUNTERED are joined by an
-- arrow with two heads, and COMPLETED has an arrow to REFUNDED.
pub data Drawn : OfferStatus → OfferEventName → OfferStatus → Type 0 where
  submitted : Drawn draft submit offered
  countered_once : Drawn offered counter countered
  countered_back : Drawn countered counter offered
  accepted_offer : Drawn offered accept accepted
  accepted_counter : Drawn countered accept accepted
  cancelled_offered : Drawn offered cancel cancelled
  cancelled_countered : Drawn countered cancel cancelled
  expired_countered : Drawn countered expire expired
  cancelled_accepted : Drawn accepted cancel cancelled
  expired_accepted : Drawn accepted expire expired
  captured : Drawn accepted payment_captured paid_in_escrow
  refunded_early : Drawn paid_in_escrow refund refunded
  started : Drawn paid_in_escrow engagement_started active
  disputed_active : Drawn active open_dispute disputed
  resolved_release : Drawn disputed resolve_dispute_release active
  resolved_refund : Drawn disputed resolve_dispute_refund refunded
  all_released : Drawn active all_milestones_released completed
  disputed_late : Drawn completed open_dispute refunded

-- What the machine does and the diagram does not draw.
pub data Undrawn : OfferStatus → OfferEventName → OfferStatus → Type 0 where
  cancelled_draft : Undrawn draft cancel cancelled
  countered_again : Undrawn countered counter countered
  expired_offered : Undrawn offered expire expired
  disputed_paid : Undrawn paid_in_escrow open_dispute disputed

-- A move: an arrow of the diagram, but for the one that leads back from COUNTERED to OFFERED, or one
-- of those that are not drawn.
abbrev pub Moves : OfferStatus → OfferEventName → OfferStatus → Type 0
Moves s e t = (Drawn s e t × (¬ (s ≡ countered × (e ≡ counter)))) ⊎ Undrawn s e t

Edge-Moves : {s t : OfferStatus} {e : OfferEventName} → Edge s e t → (¬ IsTerminal s) → Moves s e t
Edge-Moves Edge.submitted live = inl (Drawn.submitted, λ p. ground arith)
Edge-Moves Edge.countered_offer live = inl (Drawn.countered_once, λ p. ground arith)
Edge-Moves Edge.countered_again live = inr Undrawn.countered_again
Edge-Moves Edge.accepted_offer live = inl (Drawn.accepted_offer, λ p. ground arith)
Edge-Moves Edge.accepted_counter live = inl (Drawn.accepted_counter, λ p. ground arith)
Edge-Moves Edge.captured live = inl (Drawn.captured, λ p. ground arith)
Edge-Moves Edge.started live = inl (Drawn.started, λ p. ground arith)
Edge-Moves Edge.all_released live = inl (Drawn.all_released, λ p. ground arith)
Edge-Moves Edge.disputed_active live = inl (Drawn.disputed_active, λ p. ground arith)
Edge-Moves Edge.disputed_paid live = inr Undrawn.disputed_paid
Edge-Moves Edge.disputed_completed live = absurd (live (inl refl))
Edge-Moves Edge.resolved_release live = inl (Drawn.resolved_release, λ p. ground arith)
Edge-Moves Edge.resolved_refund live = inl (Drawn.resolved_refund, λ p. ground arith)
Edge-Moves Edge.refunded_early live = inl (Drawn.refunded_early, λ p. ground arith)
Edge-Moves Edge.cancelled_draft live = inr Undrawn.cancelled_draft
Edge-Moves Edge.cancelled_offered live = inl (Drawn.cancelled_offered, λ p. ground arith)
Edge-Moves Edge.cancelled_countered live = inl (Drawn.cancelled_countered, λ p. ground arith)
Edge-Moves Edge.cancelled_accepted live = inl (Drawn.cancelled_accepted, λ p. ground arith)
Edge-Moves Edge.expired_offered live = inr Undrawn.expired_offered
Edge-Moves Edge.expired_countered live = inl (Drawn.expired_countered, λ p. ground arith)
Edge-Moves Edge.expired_accepted live = inl (Drawn.expired_accepted, λ p. ground arith)

Moves-Edge : {s t : OfferStatus} {e : OfferEventName} → Moves s e t → (¬ IsTerminal s) → Edge s e t
Moves-Edge (inl (Drawn.submitted, apart)) live = Edge.submitted
Moves-Edge (inl (Drawn.countered_once, apart)) live = Edge.countered_offer
Moves-Edge (inr Undrawn.countered_again) live = Edge.countered_again
Moves-Edge (inl (Drawn.accepted_offer, apart)) live = Edge.accepted_offer
Moves-Edge (inl (Drawn.accepted_counter, apart)) live = Edge.accepted_counter
Moves-Edge (inl (Drawn.captured, apart)) live = Edge.captured
Moves-Edge (inl (Drawn.started, apart)) live = Edge.started
Moves-Edge (inl (Drawn.all_released, apart)) live = Edge.all_released
Moves-Edge (inl (Drawn.disputed_active, apart)) live = Edge.disputed_active
Moves-Edge (inr Undrawn.disputed_paid) live = Edge.disputed_paid
Moves-Edge (inl (Drawn.resolved_release, apart)) live = Edge.resolved_release
Moves-Edge (inl (Drawn.resolved_refund, apart)) live = Edge.resolved_refund
Moves-Edge (inl (Drawn.refunded_early, apart)) live = Edge.refunded_early
Moves-Edge (inr Undrawn.cancelled_draft) live = Edge.cancelled_draft
Moves-Edge (inl (Drawn.cancelled_offered, apart)) live = Edge.cancelled_offered
Moves-Edge (inl (Drawn.cancelled_countered, apart)) live = Edge.cancelled_countered
Moves-Edge (inl (Drawn.cancelled_accepted, apart)) live = Edge.cancelled_accepted
Moves-Edge (inr Undrawn.expired_offered) live = Edge.expired_offered
Moves-Edge (inl (Drawn.expired_countered, apart)) live = Edge.expired_countered
Moves-Edge (inl (Drawn.expired_accepted, apart)) live = Edge.expired_accepted
Moves-Edge (inl (Drawn.countered_back, apart)) live = absurd (apart (refl, refl))
Moves-Edge (inl (Drawn.disputed_late, apart)) live = absurd (live (inl refl))

-- A call of `transition` leads to `t` exactly when that is an arrow of the header comment's diagram,
-- other than the one back from COUNTERED to OFFERED, or one of four moves that it does not draw: a
-- draft is cancelled, an offer expires, a counter is countered, and a paid offer is disputed; the
-- state is not terminal, the actor is one that the event admits, and the facts meet the event's
-- condition.
pub transition_iff :
    (s t : OfferStatus) (e : OfferEventName) (a : ActorRole) (ctx : TransitionContext)
    → (target (transition s e a ctx) ≡ some t)
      ↔ (Moves s e t × Permits e a × Meets e ctx × (¬ IsTerminal s))
transition_iff s t e a ctx = (
  λ h.
      let (edge, permits, meets, live) = (table_iff s t e a ctx).0 h in
      (Edge-Moves edge live, permits, meets, live),
  λ (moves, permits, meets, live).
      (table_iff s t e a ctx).1 (Moves-Edge moves live, permits, meets, live),
)
