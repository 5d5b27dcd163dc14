-- ===== src/Offers/StateMachine.antt =====
-- lib/offers/state-machine.ts: the types, the guards, `transition` and what the UI asks of it.
-- The transition table stands in `Table`.
mod Types
mod Table
pub mod Diagram
pub mod Drawing
pub mod Money
pub mod Actors
pub mod Lookup
pub mod Runs
mod Tests
pub use Types.*
unfoldable pub use Table.*
use kaktus.Base.{
  ℕ, Bool, true, false, ◌&&◌, not, Option, none, some, List, [], ◌∷◌, map, String, find, select,
  any, if◌then◌else◌, Result, ok, err, is_ok, ◌>>=◌, ◌>>◌, throw_if,
}

-- A JavaScript truth test of an optional flag: an absent one is falsy.
abbrev pub truthy : Option Bool → Bool
truthy (some true) = true
truthy _ = false

-- `flag === false`, which an absent flag does not satisfy.
abbrev pub is_false : Option Bool → Bool
is_false (some false) = true
is_false _ = false

-- The guard of each event; `none` is `null`.
unfoldable pub check_guards : OfferEventName → TransitionContext → Option String
check_guards counter ctx =
    if truthy ctx.is_initiator_of_current_offer
    then some "You cannot counter your own offer; edit it or cancel instead."
    else none
check_guards accept ctx =
    if truthy ctx.is_initiator_of_current_offer
    then some "You cannot accept your own offer."
    else none
check_guards payment_captured ctx =
    if truthy ctx.has_captured_payment
    then none
    else some "No captured payment found for this offer."
check_guards engagement_started ctx =
    if truthy ctx.start_date_reached
    then none
    else some "Engagement start date has not been reached."
check_guards all_milestones_released ctx =
    if not (truthy ctx.all_milestones_settled)
    then some "Some milestones are still unsettled."
    else if truthy ctx.has_open_dispute
    then some "An open dispute must be resolved first."
    else none
check_guards open_dispute ctx =
    if truthy ctx.has_open_dispute
    then some "A dispute is already open."
    else if is_false ctx.within_dispute_window
    then some "The dispute window has closed."
    else none
check_guards cancel ctx =
    if truthy ctx.has_captured_payment
    then some "Payment already captured — refund instead of cancelling."
    else none
check_guards expire ctx =
    if truthy ctx.has_captured_payment
    then some "Payment already captured — refund instead of cancelling."
    else none
check_guards refund ctx =
    if truthy ctx.start_date_reached
    then some "Engagement has started; resolve through a dispute instead."
    else none
check_guards _ _ = none

-- `INDEX.get(`${from}::${event}`)` of the map that the loop over the table fills: a later row
-- with the same key replaces an earlier one, so the last row that fits is found.
abbrev pub index_in :
    List TransitionDefinition → OfferStatus → OfferEventName → Option TransitionDefinition
index_in [] s e = none
index_in (d ∷ ds) s e =
    let later = index_in ds s e in
    elim later [
      | some d' ↦ some d'
      | none ↦ if same_status d.from s && same_event d.event e then some d else none
    ]

unfoldable pub index_get : OfferStatus → OfferEventName → Option TransitionDefinition
unfolding transitions
index_get = index_in transitions

-- The checks that follow the lookup, in the source's order.
unfoldable pub check_definition :
    TransitionDefinition
    → OfferStatus
    → OfferEventName
    → ActorRole
    → TransitionContext
    → Result TransitionCode TransitionOutcome
check_definition def current event actor ctx =
    if any (same_actor actor) def.allowed_actors
    then elim (check_guards def.event ctx) [
      | some failure ↦ err guard_failed
      | none ↦ ok (record { from = current; to = def.to; event = event; effects = def.effects })
    ]
    else err forbidden_actor

unfoldable pub transition :
    OfferStatus
    → OfferEventName
    → ActorRole
    → TransitionContext
    → Result TransitionCode TransitionOutcome
transition current event actor ctx =
    if any (same_status current) terminal_states
    then err terminal_state
    else elim (index_get current event) [
      | none ↦ err illegal_transition
      | some def ↦ check_definition def current event actor ctx
    ]

unfoldable pub available_events : OfferStatus → ActorRole → List OfferEventName
unfolding transitions
available_events current actor =
    map (λ (t : TransitionDefinition). t.event)
      (select (λ t. same_status t.from current && any (same_actor actor) t.allowed_actors)
        transitions)

unfoldable pub can_transition : OfferStatus → OfferEventName → ActorRole → TransitionContext → Bool
can_transition current event actor ctx = is_ok (transition current event actor ctx)
