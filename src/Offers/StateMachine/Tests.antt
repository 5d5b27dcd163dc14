-- ===== src/Offers/StateMachine/Tests.antt =====
-- Runs of the state machine, and each theorem at an input that meets its hypotheses.
use kaktus.Base.{
  true, false, none, some, ◌≡◌, ◌≢◌, ◌↔◌, refl, inl, inr, ok, err, List, [], ◌∷◌, any,
}
use kaktus.Offers.StateMachine.Types.{
  draft, offered, accepted, completed, disputed, refunded, student, coach, admin, system, submit,
  accept, payment_captured, engagement_started, open_dispute, resolve_dispute_refund, cancel,
  TransitionContext, TransitionOutcome, extend_slot_holds, notify, to_both, audit,
  illegal_transition, forbidden_actor, guard_failed, terminal_state, same_event,
}
use kaktus.Offers.StateMachine.{
  transition, index_get, check_definition, check_guards, available_events, can_transition,
}
use kaktus.Offers.StateMachine.Diagram.{target, Permits, Meets, IsTerminal}
use kaktus.Offers.StateMachine.Drawing.{Moves, transition_iff}
use kaktus.Offers.StateMachine.Runs.{Call, life, life_from, terminal_absorbs}
use kaktus.Offers.StateMachine.Money.{
  fundings, refunds, funded_times, refunded_times, life_accounted,
}
use kaktus.Offers.StateMachine.Actors.{
  moves_money, releases_holds, ends_unfulfilled, party_moves_no_money, holds_released_iff,
  available_iff, completed_dispute_refused,
}

abbrev no_facts : TransitionContext
no_facts = record {
  has_captured_payment = none;
  has_open_dispute = none;
  all_milestones_settled = none;
  start_date_reached = none;
  within_dispute_window = none;
  is_initiator_of_current_offer = none;
}

abbrev own_offer : TransitionContext
own_offer = record no_facts { is_initiator_of_current_offer = some true }

abbrev paid : TransitionContext
paid = record no_facts { has_captured_payment = some true }

abbrev begun : TransitionContext
begun = record paid { start_date_reached = some true }

own_offer_refused : transition offered accept coach own_offer ≡ err guard_failed
unfolding transition index_get check_definition check_guards
own_offer_refused = refl

paid_not_cancelled : transition accepted cancel student paid ≡ err guard_failed
unfolding transition index_get check_definition check_guards
paid_not_cancelled = refl

draft_not_accepted : transition draft accept student no_facts ≡ err illegal_transition
unfolding transition index_get check_definition check_guards
draft_not_accepted = refl

student_not_admin :
    transition disputed resolve_dispute_refund student no_facts ≡ err forbidden_actor
unfolding transition index_get check_definition check_guards
student_not_admin = refl

abbrev disputed_life : List Call
disputed_life =
    record { event = submit; actor = student; ctx = no_facts }
    ∷ record { event = accept; actor = student; ctx = own_offer }
    ∷ record { event = accept; actor = coach; ctx = no_facts }
    ∷ record { event = payment_captured; actor = system; ctx = paid }
    ∷ record { event = cancel; actor = student; ctx = paid }
    ∷ record { event = engagement_started; actor = system; ctx = begun }
    ∷ record { event = open_dispute; actor = student; ctx = begun }
    ∷ record { event = resolve_dispute_refund; actor = admin; ctx = begun }
    ∷ record { event = open_dispute; actor = student; ctx = begun }
    ∷ []

disputed_life_ends : (life disputed_life).0 ≡ refunded
unfolding life transition index_get check_definition check_guards
disputed_life_ends = refl

transition_iff_example : (target (transition offered accept coach no_facts) ≡ some accepted) ↔ (
    Moves offered accept accepted
    × Permits accept coach
    × Meets accept no_facts
    × (¬ IsTerminal offered))
transition_iff_example = transition_iff offered accepted accept coach no_facts

terminal_absorbs_example : life_from refunded [] disputed_life ≡ (refunded, [])
terminal_absorbs_example = terminal_absorbs refunded [] disputed_life (inr (inl refl))

life_accounted_example :
    let (s, done) = life disputed_life in
    (fundings done ≡ funded_times s) × (refunds done ≡ refunded_times s)
life_accounted_example = life_accounted disputed_life

abbrev accept_outcome : TransitionOutcome
accept_outcome = record {
  from = offered;
  to = accepted;
  event = accept;
  effects = extend_slot_holds 120 ∷ notify to_both "offer.accepted" ∷ audit "offer.accepted" ∷ [];
}

accept_passes : transition offered accept coach no_facts ≡ ok accept_outcome
unfolding transition index_get check_definition check_guards
accept_passes = refl

party_moves_no_money_example : any moves_money accept_outcome.effects ≡ false
party_moves_no_money_example =
    party_moves_no_money offered accept coach no_facts accept_passes (inr refl)

holds_released_iff_example :
    any releases_holds accept_outcome.effects ≡ ends_unfulfilled accept_outcome.to
holds_released_iff_example = holds_released_iff offered accept coach no_facts accept_passes

available_iff_example :
    (any (same_event cancel) (available_events accepted student) ≡ true)
    ↔ ∥ ((ctx : TransitionContext) × (can_transition accepted cancel student ctx ≡ true)) ∥₁
available_iff_example = available_iff accepted cancel student (λ e. cc)

completed_dispute_refused_example :
    (transition completed open_dispute student no_facts ≡ err terminal_state)
    × (student ≢ system → available_events completed student ≡ open_dispute ∷ [])
completed_dispute_refused_example = completed_dispute_refused open_dispute student no_facts
