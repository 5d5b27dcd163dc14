-- ===== src/Offers/StateMachine/Diagram.antt =====
-- lib/offers/state-machine.ts: the moves of the table as a relation, and `transition` against it.
use kaktus.Base.{
  true, false, Option, none, some, ◌≡◌, ◌≢◌, refl, ◌⊎◌, inl, arith, Result, ok, err, any, All, ◌↔◌,
  some_inj,
}
use kaktus.Offers.StateMachine.Types.{
  OfferStatus, draft, offered, countered, accepted, paid_in_escrow, active, completed, disputed,
  refunded, cancelled, expired, ActorRole, student, coach, admin, system, OfferEventName, submit,
  counter, accept, payment_captured, engagement_started, all_milestones_released, open_dispute,
  resolve_dispute_release, resolve_dispute_refund, refund, cancel, expire, TransitionContext,
  TransitionOutcome, TransitionDefinition, TransitionCode, same_actor, same_status, terminal_states,
}
use kaktus.Offers.StateMachine.{transition, transitions, check_guards, check_definition, index_get}
use kaktus.Offers.StateMachine.Lookup.{transition-Passed, index_get-All}
use mathlib.Core.Path.{subst}

-- The moves that the rows of the table allow.
pub data Edge : OfferStatus → OfferEventName → OfferStatus → Type 0 where
  submitted : Edge draft submit offered
  countered_offer : Edge offered counter countered
  countered_again : Edge countered counter countered
  accepted_offer : Edge offered accept accepted
  accepted_counter : Edge countered accept accepted
  captured : Edge accepted payment_captured paid_in_escrow
  started : Edge paid_in_escrow engagement_started active
  all_released : Edge active all_milestones_released completed
  disputed_active : Edge active open_dispute disputed
  disputed_paid : Edge paid_in_escrow open_dispute disputed
  disputed_completed : Edge completed open_dispute disputed
  resolved_release : Edge disputed resolve_dispute_release active
  resolved_refund : Edge disputed resolve_dispute_refund refunded
  refunded_early : Edge paid_in_escrow refund refunded
  cancelled_draft : Edge draft cancel cancelled
  cancelled_offered : Edge offered cancel cancelled
  cancelled_countered : Edge countered cancel cancelled
  cancelled_accepted : Edge accepted cancel cancelled
  expired_offered : Edge offered expire expired
  expired_countered : Edge countered expire expired
  expired_accepted : Edge accepted expire expired

pub ruleset arrows = (
  submitted, countered_offer, countered_again, accepted_offer, accepted_counter, captured, started,
  all_released, disputed_active, disputed_paid, disputed_completed, resolved_release,
  resolved_refund, refunded_early, cancelled_draft, cancelled_offered, cancelled_countered,
  cancelled_accepted, expired_offered, expired_countered, expired_accepted,
)

-- Who may trigger an event.
abbrev pub Permits : OfferEventName → ActorRole → Type 0
Permits submit a = (a ≡ student) ⊎ (a ≡ coach)
Permits counter a = (a ≡ student) ⊎ (a ≡ coach)
Permits accept a = (a ≡ student) ⊎ (a ≡ coach)
Permits payment_captured a = a ≡ system
Permits engagement_started a = a ≡ system
Permits all_milestones_released a = a ≡ system
Permits open_dispute a = a ≢ system
Permits resolve_dispute_release a = a ≡ admin
Permits resolve_dispute_refund a = a ≡ admin
Permits refund a = (a ≡ admin) ⊎ (a ≡ system)
Permits cancel a = a ≢ system
Permits expire a = a ≡ system

-- What an event needs of the facts; the cases say which way an absent fact counts.
abbrev pub Meets : OfferEventName → TransitionContext → Type 0
Meets counter ctx = ctx.is_initiator_of_current_offer ≢ some true
Meets accept ctx = ctx.is_initiator_of_current_offer ≢ some true
Meets payment_captured ctx = ctx.has_captured_payment ≡ some true
Meets engagement_started ctx = ctx.start_date_reached ≡ some true
Meets all_milestones_released ctx =
    (ctx.all_milestones_settled ≡ some true) × (ctx.has_open_dispute ≢ some true)
Meets open_dispute ctx =
    (ctx.has_open_dispute ≢ some true) × (ctx.within_dispute_window ≢ some false)
Meets refund ctx = ctx.start_date_reached ≢ some true
Meets cancel ctx = ctx.has_captured_payment ≢ some true
Meets expire ctx = ctx.has_captured_payment ≢ some true
Meets _ ctx = Unit

-- A terminal state, by the list of the source.
abbrev pub IsTerminal : OfferStatus → Type 0
IsTerminal s = (s ≡ completed) ⊎ (s ≡ refunded) ⊎ (s ≡ cancelled) ⊎ (s ≡ expired)

-- Each row of the table is a move, with the actors and the guard that the rules above name.
abbrev IsFaithful : TransitionDefinition → Type 0
IsFaithful d =
    Edge d.from d.event d.to
    × ((a : ActorRole) → any (same_actor a) d.allowed_actors ≡ true → Permits d.event a)

rows-IsFaithful : All IsFaithful transitions
unfolding transitions
rows-IsFaithful = (
  (submitted, λ a h. ground arith),
  (
    (countered_offer, λ a h. ground arith),
    (
      (countered_again, λ a h. ground arith),
      (
        (accepted_offer, λ a h. ground arith),
        (
          (accepted_counter, λ a h. ground arith),
          (
            (captured, λ a h. ground arith),
            (
              (started, λ a h. ground arith),
              (
                (all_released, λ a h. ground arith),
                (
                  (disputed_active, λ a h. ground arith),
                  (
                    (disputed_paid, λ a h. ground arith),
                    (
                      (disputed_completed, λ a h. ground arith),
                      (
                        (resolved_release, λ a h. ground arith),
                        (
                          (resolved_refund, λ a h. ground arith),
                          (
                            (refunded_early, λ a h. ground arith),
                            (
                              (cancelled_draft, λ a h. ground arith),
                              (
                                (cancelled_offered, λ a h. ground arith),
                                (
                                  (cancelled_countered, λ a h. ground arith),
                                  (
                                    (cancelled_accepted, λ a h. ground arith),
                                    (
                                      (expired_offered, λ a h. ground arith),
                                      (
                                        (expired_countered, λ a h. ground arith),
                                        ((expired_accepted, λ a h. ground arith), tt),
                                      ),
                                    ),
                                  ),
                                ),
                              ),
                            ),
                          ),
                        ),
                      ),
                    ),
                  ),
                ),
              ),
            ),
          ),
        ),
      ),
    ),
  ),
)

-- Whether the guard lets an event pass is what the rules above say.
guard-Meets :
    (e : OfferEventName) (ctx : TransitionContext) → check_guards e ctx ≡ none → Meets e ctx
unfolding check_guards
guard-Meets counter ctx h = ground arith
guard-Meets _ ctx h = ground arith

Meets-guard :
    (e : OfferEventName) (ctx : TransitionContext) → Meets e ctx → check_guards e ctx ≡ none
unfolding check_guards
Meets-guard counter ctx h = ground arith
Meets-guard _ ctx h = ground arith

-- The state that a call leads to, if it goes through.
abbrev pub target : Result TransitionCode TransitionOutcome → Option OfferStatus
target (ok o) = some o.to
target (err _) = none

not-IsTerminal : (s : OfferStatus) → any (same_status s) terminal_states ≡ false → ¬ IsTerminal s
not-IsTerminal s h t = ground arith

pub transition_sound :
    (s : OfferStatus) (e : OfferEventName) (a : ActorRole) (ctx : TransitionContext)
    {o : TransitionOutcome}
    → transition s e a ctx ≡ ok o
    → Edge s e o.to × Permits e a × Meets e ctx × (¬ IsTerminal s)
transition_sound s e a ctx {o} h =
    let p = transition-Passed s e a ctx h in
    let ((edge, permits), from, event) = index_get-All IsFaithful s e rows-IsFaithful p.found in
    let to : p.def.to ≡ o.to = cc p.outcome in
    (
      subst (λ t. Edge s e t) to
          (subst (λ x. Edge s x p.def.to) event
            (subst (λ x. Edge x p.def.event p.def.to) from edge)),
      subst (λ x. Permits x a) event (permits a p.permitted),
      subst (λ x. Meets x ctx) event (guard-Meets p.def.event ctx p.guarded),
      not-IsTerminal s p.live,
    )

transition_complete :
    (a : ActorRole) (ctx : TransitionContext) {s t : OfferStatus} {e : OfferEventName}
    → Edge s e t
    → Permits e a
    → Meets e ctx
    → (¬ IsTerminal s)
    → target (transition s e a ctx) ≡ some t
unfolding transition index_get check_definition
transition_complete a ctx submitted p m live = ground (arith, Meets-guard submit ctx m)
transition_complete a ctx countered_offer p m live = ground (arith, Meets-guard counter ctx m)
transition_complete a ctx countered_again p m live = ground (arith, Meets-guard counter ctx m)
transition_complete a ctx accepted_offer p m live = ground (arith, Meets-guard accept ctx m)
transition_complete a ctx accepted_counter p m live = ground (arith, Meets-guard accept ctx m)
transition_complete a ctx captured p m live = ground (arith, Meets-guard payment_captured ctx m)
transition_complete a ctx started p m live = ground (arith, Meets-guard engagement_started ctx m)
transition_complete a ctx all_released p m live =
    ground (arith, Meets-guard all_milestones_released ctx m)
transition_complete a ctx disputed_active p m live = ground (arith, Meets-guard open_dispute ctx m)
transition_complete a ctx disputed_paid p m live = ground (arith, Meets-guard open_dispute ctx m)
transition_complete a ctx disputed_completed p m live = absurd (live (inl refl))
transition_complete a ctx resolved_release p m live =
    ground (arith, Meets-guard resolve_dispute_release ctx m)
transition_complete a ctx resolved_refund p m live =
    ground (arith, Meets-guard resolve_dispute_refund ctx m)
transition_complete a ctx refunded_early p m live = ground (arith, Meets-guard refund ctx m)
transition_complete a ctx cancelled_draft p m live = ground (arith, Meets-guard cancel ctx m)
transition_complete a ctx cancelled_offered p m live = ground (arith, Meets-guard cancel ctx m)
transition_complete a ctx cancelled_countered p m live = ground (arith, Meets-guard cancel ctx m)
transition_complete a ctx cancelled_accepted p m live = ground (arith, Meets-guard cancel ctx m)
transition_complete a ctx expired_offered p m live = ground (arith, Meets-guard expire ctx m)
transition_complete a ctx expired_countered p m live = ground (arith, Meets-guard expire ctx m)
transition_complete a ctx expired_accepted p m live = ground (arith, Meets-guard expire ctx m)

-- `transition` takes the moves of the table, for the actors and the facts that the rules above name.
pub table_iff :
    (s t : OfferStatus) (e : OfferEventName) (a : ActorRole) (ctx : TransitionContext)
    → (target (transition s e a ctx) ≡ some t)
      ↔ (Edge s e t × Permits e a × Meets e ctx × (¬ IsTerminal s))
table_iff s t e a ctx =
    (λ h. go (transition s e a ctx) refl h, λ r. transition_complete a ctx r.0 r.1 r.2 r.3)
  where
    go :
        (r : Result TransitionCode TransitionOutcome)
        → transition s e a ctx ≡ r
        → target r ≡ some t
        → Edge s e t × Permits e a × Meets e ctx × (¬ IsTerminal s)
    go (ok o) eq h =
        subst (λ x. Edge s e x × Permits e a × Meets e ctx × (¬ IsTerminal s)) (some_inj h)
          (transition_sound s e a ctx eq)
    go (err _) eq h = cc
