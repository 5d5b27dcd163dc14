-- ===== src/Offers/StateMachine/Lookup.antt =====
-- What a successful lookup and a successful `transition` tell of the row that was used.
use kaktus.Base.{
  Bool, true, false, ◌&&◌, none, some, ◌≡◌, inl, inr, arith, ok, any, List, [], ◌∷◌, All,
  Bool-cases, Option-cases, and_parts, some_inj, if◌then◌else◌,
}
use mathlib.Core.Path.{subst}
use kaktus.Offers.StateMachine.Types.{
  OfferStatus, ActorRole, OfferEventName, TransitionContext, TransitionOutcome,
  TransitionDefinition, terminal_states, same_status, same_event, same_actor, same_status→eq,
  same_event→eq,
}
use kaktus.Offers.StateMachine.{
  transition, index_in, index_get, check_definition, check_guards, transitions,
}

pick {ℓ} :
    {A : Type ℓ} (b : Bool) {x d : A} → (if b then some x else none) ≡ some d → (b ≡ true) × (x ≡ d)
pick true h = ground arith
pick false h = cc

-- The row found is one of the list, and it has the key that was asked for.
index_in-All :
    (P : TransitionDefinition → Type 0) (ds : List TransitionDefinition) (s : OfferStatus)
    (e : OfferEventName) {d : TransitionDefinition}
    → All P ds
    → index_in ds s e ≡ some d
    → P d × (same_status d.from s ≡ true) × (same_event d.event e ≡ true)
index_in-All P [] s e all h = cc
index_in-All P (x ∷ ds) s e {d} all h = elim (Option-cases (index_in ds s e)) [
  | inl missed ↦
      let (hit, same) = pick (same_status x.from s && same_event x.event e) (rw missed at h) in
      let (from, event) = and_parts (same_status x.from s) (same_event x.event e) hit in
      subst (λ r. P r × (same_status r.from s ≡ true) × (same_event r.event e ≡ true)) same
        (all.0, from, event)
  | inr (d', found) ↦
      let same : some d' ≡ some d = rw found at h in
      subst (λ r. P r × (same_status r.from s ≡ true) × (same_event r.event e ≡ true))
        (some_inj same) (index_in-All P ds s e all.1 found)
]

pub index_get-All :
    (P : TransitionDefinition → Type 0) (s : OfferStatus) (e : OfferEventName)
    {d : TransitionDefinition}
    → All P transitions
    → index_get s e ≡ some d
    → P d × (d.from ≡ s) × (d.event ≡ e)
unfolding index_get
index_get-All P s e {d} all h =
    let (p, from, event) = index_in-All P transitions s e all h in
    (p, same_status→eq d.from s from, same_event→eq d.event e event)

-- A transition that goes through has found a row, whose actors and guard let it pass.
pub record Passed (s : OfferStatus) (e : OfferEventName) (a : ActorRole) (ctx : TransitionContext)
    (o : TransitionOutcome) : Type 0 where
  pub def : TransitionDefinition
  pub found : index_get s e ≡ some def
  pub live : any (same_status s) terminal_states ≡ false
  pub permitted : any (same_actor a) def.allowed_actors ≡ true
  pub guarded : check_guards def.event ctx ≡ none
  pub outcome : o ≡ record { from = s; to = def.to; event = e; effects = def.effects }

check_definition-inv :
    (def : TransitionDefinition) (s : OfferStatus) (e : OfferEventName) (a : ActorRole)
    (ctx : TransitionContext) {o : TransitionOutcome}
    → check_definition def s e a ctx ≡ ok o
    → (any (same_actor a) def.allowed_actors ≡ true)
      × (check_guards def.event ctx ≡ none)
      × (o ≡ record { from = s; to = def.to; event = e; effects = def.effects })
unfolding check_definition
check_definition-inv def s e a ctx h = elim (Bool-cases (any (same_actor a) def.allowed_actors)) [
  | inl may ↦ ground arith
  | inr not_allowed ↦ ground arith
]

pub transition-Passed :
    (s : OfferStatus) (e : OfferEventName) (a : ActorRole) (ctx : TransitionContext)
    {o : TransitionOutcome}
    → transition s e a ctx ≡ ok o
    → Passed s e a ctx o
unfolding transition
transition-Passed s e a ctx h = elim (Bool-cases (any (same_status s) terminal_states)) [
  | inl terminal ↦ cc (rw terminal at h)
  | inr live ↦ elim (Option-cases (index_get s e)) [
    | inl missed ↦ cc (rw (live, missed) at h)
    | inr (def, found) ↦
        let (permitted, guarded, outcome) =
          check_definition-inv def s e a ctx (rw (live, found) at h) in
        record {
          def = def;
          found = found;
          live = live;
          permitted = permitted;
          guarded = guarded;
          outcome = outcome;
        }
  ]
]
