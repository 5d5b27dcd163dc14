-- ===== src/Database/Transaction.antt =====
-- An interactive transaction: it runs on the store, and what throws inside it rolls it back, so an
-- error carries no store.
use kaktus.Base.{
  ℕ, suc, Bool, true, false, Option, none, some, List, [], ◌∷◌, Result, ok, err, ◌≡◌, refl,
}
use kaktus.Offers.StateMachine.{TransitionCode}
use kaktus.Offers.Scope.{ScopeError}
use kaktus.Payments.Split.{SplitError}
use kaktus.Payments.Basket.{BasketError}
use kaktus.Database.Rows.{Store}

pub data ServiceError : Type 0 where
  not_found concurrent_modification unbalanced_group constraint_violation slot_taken
        no_captured_payment share_out_of_range already_resolved dispute_open forbidden wrong_state
        too_early offer_not_payable coach_not_payable already_paid provider_rejected amount_mismatch
        unknown_token duplicate_key :
      ServiceError
  illegal : TransitionCode → ServiceError
  bad_split : SplitError → ServiceError
  bad_scope : ScopeError → ServiceError
  bad_basket : BasketError → ServiceError

abbrev pub Tx : Type 0 → Type 0
Tx A = Store → Result ServiceError (A × Store)

abbrev pub ⊤ : Type 0
⊤ = Unit

infixl 5 ◌>>=◌ ◌>>◌
abbrev pub ◌>>=◌ : {A B : Type 0} → Tx A → (A → Tx B) → Tx B
◌>>=◌ m f s = elim (m s) [ ok (a, s') ↦ f a s' | err e ↦ err e ]

abbrev pub ◌>>◌ : {B : Type 0} → Tx ⊤ → Tx B → Tx B
m >> k = m >>= λ _. k

abbrev pub pure : {A : Type 0} → A → Tx A
pure a s = ok (a, s)

abbrev pub throw : {A : Type 0} → ServiceError → Tx A
throw e _ = err e

abbrev pub throw_if : Bool → ServiceError → Tx ⊤
throw_if c e s = elim c [ true ↦ err e | false ↦ ok (tt, s) ]

abbrev pub gets : {A : Type 0} → (Store → A) → Tx A
gets f s = ok (f s, s)

abbrev pub modify : (Store → Store) → Tx ⊤
modify f s = ok (tt, f s)

-- `findUniqueOrThrow`
abbrev pub or_throw : {A : Type 0} → Option A → ServiceError → Tx A
or_throw (some a) _ s = ok (a, s)
or_throw none e _ = err e

-- A pure part that may throw, inside the transaction.
abbrev pub lift : {E A : Type 0} → (E → ServiceError) → Result E A → Tx A
lift f (ok a) s = ok (a, s)
lift f (err e) _ = err (f e)

-- A new id.
abbrev pub fresh : Tx ℕ
fresh s = ok (s.next_id, record s { next_id = suc s.next_id })

-- `for (const x of xs) await f(x)`
abbrev pub for_each : {A : Type 0} → (A → Tx ⊤) → List A → Tx ⊤
for_each f [] = pure tt
for_each f (x ∷ xs) = f x >>= λ _. for_each f xs

-- `if (c) m`
abbrev pub when : Bool → Tx ⊤ → Tx ⊤
when c m s = elim c [ true ↦ m s | false ↦ ok (tt, s) ]

-- Inversion of a successful sequence.
pub >>=-ok :
    {A B : Type 0} (m : Tx A) (f : A → Tx B) (s : Store) {r : B × Store}
    → (m >>= f) s ≡ ok r
    → (a : A) × (t : Store) × (m s ≡ ok (a, t)) × (f a t ≡ ok r)
>>=-ok {A} {B} m f s {r} h = go (m s) refl h
  where
    go :
        (x : Result ServiceError (A × Store))
        → m s ≡ x
        → elim x as (λ _. Result ServiceError (B × Store)) [ ok (a, s') ↦ f a s' | err e ↦ err e ]
          ≡ ok r
        → (a : A) × (t : Store) × (m s ≡ ok (a, t)) × (f a t ≡ ok r)
    go (ok (a, t)) e h = (a, t, e, h)
    go (err e) eq h = cc

-- What throws first is what the sequence throws.
pub >>=-err :
    {A B : Type 0} (m : Tx A) (f : A → Tx B) (s : Store) {e : ServiceError}
    → m s ≡ err e
    → (m >>= f) s ≡ err e
>>=-err m f s h = rw (h, ◌>>=◌) refl

-- A step that succeeds hands its result to what follows.
pub >>=-next :
    {A B : Type 0} (m : Tx A) (f : A → Tx B) (s : Store) {a : A} {t : Store}
    → m s ≡ ok (a, t)
    → (m >>= f) s ≡ f a t
>>=-next m f s h = rw (h, ◌>>=◌) refl
