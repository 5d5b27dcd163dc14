-- ===== src/Offers/StateMachine/Actors.antt =====
-- What each party can and cannot do, and what the UI is told of it.
use kaktus.Base.{
  Bool, true, false, some, ◌≡◌, ◌≢◌, ◌↔◌, refl, sym, ◌∙◌, Bool-cases, ◌⊎◌, inl, inr, arith, ok, err,
  List, [], ◌∷◌, All, any,
}
use mathlib.Core.Path.{subst}
use mathlib.Core.Logic.{∥∥₁_elim}
use mathlib.Core.Bool.{Bool-set}
use kaktus.Offers.StateMachine.Types.{
  OfferStatus, draft, offered, countered, accepted, paid_in_escrow, active, completed, disputed,
  refunded, cancelled, expired, ActorRole, student, coach, admin, system, OfferEventName,
  SideEffect, post_escrow_funding, release_remaining_milestones, refund_unreleased_escrow,
  release_slot_holds, open_dispute, payment_captured, engagement_started, terminal_state, submit,
  TransitionContext, TransitionOutcome, TransitionDefinition, same_actor, same_event,
}
use kaktus.Offers.StateMachine.{
  transition, transitions, available_events, can_transition, index_get, check_definition,
  check_guards,
}
use kaktus.Offers.StateMachine.Lookup.{transition-Passed, index_get-All}
use kaktus.Offers.StateMachine.Diagram.{Edge, submitted, Permits, transition_sound}

-- An effect that moves money into, within or out of the escrow.
abbrev pub moves_money : SideEffect → Bool
moves_money post_escrow_funding = true
moves_money release_remaining_milestones = true
moves_money (refund_unreleased_escrow _) = true
moves_money _ = false

abbrev pub releases_holds : SideEffect → Bool
releases_holds release_slot_holds = true
releases_holds _ = false

abbrev IsGuarded : TransitionDefinition → Type 0
IsGuarded d =
    any moves_money d.effects ≡ true
    → (any (same_actor student) d.allowed_actors ≡ false)
      × (any (same_actor coach) d.allowed_actors ≡ false)

rows-IsGuarded : All IsGuarded transitions
unfolding transitions
rows-IsGuarded = ground arith

barred :
    (a : ActorRole) (allowed : List ActorRole)
    → (a ≡ student) ⊎ (a ≡ coach)
    → (any (same_actor student) allowed ≡ false) × (any (same_actor coach) allowed ≡ false)
    → ¬ (any (same_actor a) allowed ≡ true)
barred a allowed (inl e) (ns, _) h = cc (subst (λ x. any (same_actor x) allowed ≡ true) e h, ns)
barred a allowed (inr e) (_, nc) h = cc (subst (λ x. any (same_actor x) allowed ≡ true) e h, nc)

-- A transition that a student or a coach triggers moves no money.
pub party_moves_no_money :
    (s : OfferStatus) (e : OfferEventName) (a : ActorRole) (ctx : TransitionContext)
    {o : TransitionOutcome}
    → transition s e a ctx ≡ ok o
    → (a ≡ student) ⊎ (a ≡ coach)
    → any moves_money o.effects ≡ false
party_moves_no_money s e a ctx {o} h party =
    let p = transition-Passed s e a ctx h in
    let (guarded, _, _) = index_get-All IsGuarded s e rows-IsGuarded p.found in
    subst (λ x. any moves_money x.effects ≡ false) (sym p.outcome)
      (elim (Bool-cases (any moves_money p.def.effects)) [
        | inl moves ↦ absurd (barred a p.def.allowed_actors party (guarded moves) p.permitted)
        | inr none_moves ↦ none_moves
      ])

-- `to` is one of CANCELLED, EXPIRED and REFUNDED.
abbrev pub ends_unfulfilled : OfferStatus → Bool
ends_unfulfilled refunded = true
ends_unfulfilled cancelled = true
ends_unfulfilled expired = true
ends_unfulfilled _ = false

abbrev ReleasesExactly : TransitionDefinition → Type 0
ReleasesExactly d = any releases_holds d.effects ≡ ends_unfulfilled d.to

rows_release : All ReleasesExactly transitions
unfolding transitions
rows_release = ground arith

-- The effects of a transition have RELEASE_SLOT_HOLDS among them exactly when it leads to
-- CANCELLED, EXPIRED or REFUNDED.
pub holds_released_iff :
    (s : OfferStatus) (e : OfferEventName) (a : ActorRole) (ctx : TransitionContext)
    {o : TransitionOutcome}
    → transition s e a ctx ≡ ok o
    → any releases_holds o.effects ≡ ends_unfulfilled o.to
holds_released_iff s e a ctx {o} h =
    let p = transition-Passed s e a ctx h in
    let (frees, _, _) = index_get-All ReleasesExactly s e rows_release p.found in
    subst (λ x. any releases_holds x.effects ≡ ends_unfulfilled x.to) (sym p.outcome) frees

-- The facts at which no guard stands in the way of an event.
abbrev pub favourable : OfferEventName → TransitionContext
favourable e = record {
  has_captured_payment = some (same_event e payment_captured);
  has_open_dispute = some false;
  all_milestones_settled = some true;
  start_date_reached = some (same_event e engagement_started);
  within_dispute_window = some true;
  is_initiator_of_current_offer = some false;
}

listed-can :
    (s : OfferStatus) (e : OfferEventName) (a : ActorRole)
    → s ≢ completed
    → any (same_event e) (available_events s a) ≡ can_transition s e a (favourable e)
unfolding available_events can_transition transition index_get check_definition check_guards
listed-can completed e a h = absurd (h refl)
listed-can draft submit student h = refl
listed-can offered submit student h = refl
listed-can countered submit student h = refl
listed-can accepted submit student h = refl
listed-can paid_in_escrow submit student h = refl
listed-can active submit student h = refl
listed-can disputed submit student h = refl
listed-can refunded submit student h = refl
listed-can cancelled submit student h = refl
listed-can expired submit student h = refl
listed-can _ _ _ h = ground arith

Edge-listed :
    (a : ActorRole) {s t : OfferStatus} {e : OfferEventName}
    → Edge s e t
    → Permits e a
    → any (same_event e) (available_events s a) ≡ true
unfolding available_events
Edge-listed student submitted p = ground arith
Edge-listed coach submitted p = ground arith
Edge-listed admin submitted p = ground arith
Edge-listed system submitted p = ground arith
Edge-listed _ _ p = ground arith

can-target :
    (s : OfferStatus) (e : OfferEventName) (a : ActorRole) (ctx : TransitionContext)
    → can_transition s e a ctx ≡ true
    → (o : TransitionOutcome) × (transition s e a ctx ≡ ok o)
unfolding can_transition
can-target s e a ctx h = ground arith

-- Outside COMPLETED the UI lists an event for an actor exactly when some facts let that actor
-- trigger it.
pub available_iff :
    (s : OfferStatus) (e : OfferEventName) (a : ActorRole)
    → s ≢ completed
    → (any (same_event e) (available_events s a) ≡ true)
      ↔ ∥ ((ctx : TransitionContext) × (can_transition s e a ctx ≡ true)) ∥₁
available_iff s e a live = (
  λ h. ∣ (favourable e, sym (listed-can s e a live) ∙ h) ∣₁,
  λ t. ∥∥₁_elim t (Bool-set _ _) (λ (ctx, h).
      let (o, eq) = can-target s e a ctx h in
      let (edge, permits, _, _) = transition_sound s e a ctx eq in Edge-listed a edge permits),
)

completed-lists : (a : ActorRole) → a ≢ system → available_events completed a ≡ open_dispute ∷ []
unfolding available_events
completed-lists student h = refl
completed-lists coach h = refl
completed-lists admin h = refl
completed-lists system h = absurd (h refl)

-- COMPLETED offers every party but the system a dispute, and refuses it to all of them, whatever
-- the facts are: the state stands both in the table and in the list of terminal states.
pub completed_dispute_refused :
    (e : OfferEventName) (a : ActorRole) (ctx : TransitionContext)
    → (transition completed e a ctx ≡ err terminal_state)
      × (a ≢ system → available_events completed a ≡ open_dispute ∷ [])
unfolding transition
completed_dispute_refused e a ctx = (refl, completed-lists a)
