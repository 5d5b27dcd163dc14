-- ===== src/Database/Keeps.antt =====
-- Invariants of a transaction: one rule for each way to build one.
use kaktus.Base.{
  suc, Bool, true, false, Option, none, some, List, [], ◌∷◌, Result, ok, err, Result-cases, inl,
  inr, ◌≡◌,
}
use mathlib.Core.Path.{subst}
use kaktus.Database.Rows.{Store}
use kaktus.Database.Transaction.{
  ServiceError, Tx, ⊤, ◌>>=◌, pure, throw, throw_if, gets, modify, or_throw, lift, fresh, for_each,
  when,
}

-- If the transaction goes through, the invariant holds of the new store.
abbrev pub Keeps : {A : Type 0} → (Store → Type 0) → Tx A → Type 0
Keeps {A} P m = (s : Store) (r : A × Store) → m s ≡ ok r → P s → P r.1

module _ (P : Store → Type 0) where
  -- `ok r ≡ ok r'` with the same store.
  pub keep_of_eq :
      {A : Type 0} (s : Store) (a : A) (r : A × Store)
      → ◌≡◌ {A = Result ServiceError (A × Store)} (ok (a, s)) (ok r)
      → P s
      → P r.1
  keep_of_eq s a r h p = let e : s ≡ r.1 = cc h in subst P e p

  pub bind-Keeps :
      {A B : Type 0} (m : Tx A) (f : A → Tx B)
      → Keeps P m
      → ((a : A) → Keeps P (f a))
      → Keeps P (m >>= f)
  bind-Keeps m f km kf s r h p = elim (Result-cases (m s)) [
    | inl ((a, t), e) ↦ kf a t r (rw (e, ◌>>=◌) at h) (km s (a, t) e p)
    | inr (x, e) ↦ cc (rw (e, ◌>>=◌) at h)
  ]

  pub pure-Keeps : {A : Type 0} (a : A) → Keeps P (pure a)
  pure-Keeps a s r h p = keep_of_eq s a r h p

  pub throw-Keeps : {A : Type 0} (e : ServiceError) → Keeps P (throw {A = A} e)
  throw-Keeps e s r h p = cc h

  pub throw_if-Keeps : (c : Bool) (e : ServiceError) → Keeps P (throw_if c e)
  throw_if-Keeps true e s r h p = cc h
  throw_if-Keeps false e s r h p = keep_of_eq s tt r h p

  pub gets-Keeps : {A : Type 0} (f : Store → A) → Keeps P (gets f)
  gets-Keeps f s r h p = keep_of_eq s (f s) r h p

  pub or_throw-Keeps : {A : Type 0} (o : Option A) (e : ServiceError) → Keeps P (or_throw o e)
  or_throw-Keeps none e s r h p = cc h
  or_throw-Keeps (some a) e s r h p = keep_of_eq s a r h p

  pub lift-Keeps : {E A : Type 0} (f : E → ServiceError) (x : Result E A) → Keeps P (lift f x)
  lift-Keeps f (ok a) s r h p = keep_of_eq s a r h p
  lift-Keeps f (err e) s r h p = cc h

  pub modify-Keeps : (f : Store → Store) → ((s : Store) → P s → P (f s)) → Keeps P (modify f)
  modify-Keeps f k s r h p = keep_of_eq (f s) tt r h (k s p)

  pub fresh-Keeps : ((s : Store) → P s → P (record s { next_id = suc s.next_id })) → Keeps P fresh
  fresh-Keeps k s r h p = keep_of_eq (record s { next_id = suc s.next_id }) s.next_id r h (k s p)

  pub for_each-Keeps :
      {A : Type 0} (f : A → Tx ⊤) (xs : List A)
      → ((x : A) → Keeps P (f x))
      → Keeps P (for_each f xs)
  for_each-Keeps f [] k = pure-Keeps tt
  for_each-Keeps f (x ∷ xs) k = bind-Keeps (f x) _ (k x) (λ _. for_each-Keeps f xs k)

  pub when-Keeps : (c : Bool) (m : Tx ⊤) → Keeps P m → Keeps P (when c m)
  when-Keeps true m k s r h p = k s r h p
  when-Keeps false m k s r h p = keep_of_eq s tt r h p
