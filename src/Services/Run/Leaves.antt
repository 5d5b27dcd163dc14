-- ===== src/Services/Run/Leaves.antt =====
-- Invariants of a run: one rule for each way to build one.
use kaktus.Base.{Option, none, some, Result, ok, err, ◌≡◌, refl}
use kaktus.Database.{Store, Tx, ServiceError}
use kaktus.Database.Keeps.{Keeps}
use kaktus.Services.Run.{Run, settled, in_transaction, resume, and_then, run_unless}

-- Every store that a run leaves has the invariant, whatever the run returns.
abbrev pub Leaves : {A : Type 0} → (Store → Type 0) → Run A → Type 0
Leaves P m = (s : Store) → P s → P (m s).0

module _ (P : Store → Type 0) where
  settled-Keeps :
      {A : Type 0} (m : Tx A) (s : Store) (r : Result ServiceError (A × Store))
      → Keeps P m
      → m s ≡ r
      → P s
      → P (settled s r).0
  settled-Keeps m s (ok (a, t)) k e p = k s (a, t) e p
  settled-Keeps m s (err e) k eq p = p

  pub in_transaction-Leaves : {A : Type 0} (m : Tx A) → Keeps P m → Leaves P (in_transaction m)
  unfolding in_transaction
  in_transaction-Leaves m k s p = settled-Keeps m s (m s) k refl p

  resume-Leaves :
      {A B : Type 0} (k : A → Run B) (x : Store × Result ServiceError A)
      → ((a : A) → Leaves P (k a))
      → P x.0
      → P (resume k x).0
  resume-Leaves k (s, ok a) l p = l a s p
  resume-Leaves k (s, err e) l p = p

  pub and_then-Leaves :
      {A B : Type 0} (m : Run A) (k : A → Run B)
      → Leaves P m
      → ((a : A) → Leaves P (k a))
      → Leaves P (and_then m k)
  unfolding and_then
  and_then-Leaves m k l lk s p = resume-Leaves k (m s) lk (l s p)

  pub run_unless-Leaves :
      {A : Type 0} (e : Option ServiceError) (m : Run A) → Leaves P m → Leaves P (run_unless e m)
  unfolding run_unless
  run_unless-Leaves (some e) m l s p = p
  run_unless-Leaves none m l s p = l s p
