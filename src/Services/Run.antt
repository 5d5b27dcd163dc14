-- ===== src/Services/Run.antt =====
-- A service call that runs several transactions one after another: what one has committed stays when
-- a later one is rolled back.
pub mod Leaves
use kaktus.Base.{Bool, true, false, Option, none, some, List, [], ◌∷◌, Result, ok, err, ◌≡◌, refl}
use kaktus.Database.{Store, Tx, ServiceError}

-- A run of transactions: the store that is left, and what the call returns or throws.
abbrev pub Run : Type 0 → Type 0
Run A = Store → Store × Result ServiceError A

abbrev pub settled :
    {A : Type 0} → Store → Result ServiceError (A × Store) → Store × Result ServiceError A
settled s (ok (a, t)) = (t, ok a)
settled s (err e) = (s, err e)

-- `prisma.$transaction`
unfoldable pub in_transaction : {A : Type 0} → Tx A → Run A
in_transaction m s = settled s (m s)

abbrev pub resume :
    {A B : Type 0} → (A → Run B) → Store × Result ServiceError A → Store × Result ServiceError B
resume k (s, ok a) = k a s
resume k (s, err e) = (s, err e)

unfoldable pub and_then : {A B : Type 0} → Run A → (A → Run B) → Run B
and_then m k s = resume k (m s)

-- What only reports leaves the store as it is.
pub and_then-store :
    {A B : Type 0} (m : Run A) (x : Result ServiceError B) (s : Store)
    → (and_then m (λ _ t. (t, x)) s).0 ≡ (m s).0
unfolding and_then
and_then-store {A} {B} m x s = go (m s)
  where
    go : (y : Store × Result ServiceError A) → (resume {B = B} (λ _ t. (t, x)) y).0 ≡ y.0
    go (t, ok a) = refl
    go (t, err e) = refl

abbrev pub return : {A : Type 0} → A → Run A
return a s = (s, ok a)

-- The checks of a call, in order: the first that fails is thrown.
unfoldable pub check_all : List (Bool × ServiceError) → Option ServiceError
check_all [] = none
check_all ((true, e) ∷ cs) = some e
check_all ((false, e) ∷ cs) = check_all cs

unfoldable pub run_unless : {A : Type 0} → Option ServiceError → Run A → Run A
run_unless (some e) m s = (s, err e)
run_unless none m s = m s

-- Inversion of a run that returns.
pub and_then-ok :
    {A B : Type 0} (m : Run A) (k : A → Run B) (s : Store) {b : B}
    → (and_then m k s).1 ≡ ok b
    → (a : A) × ((m s).1 ≡ ok a) × ((k a (m s).0).1 ≡ ok b) × ((and_then m k s).0 ≡ (k a (m s).0).0)
unfolding and_then
and_then-ok {A} {B} m k s {b} h = go (m s) h
  where
    go :
        (y : Store × Result ServiceError A)
        → (resume k y).1 ≡ ok b
        → (a : A) × (y.1 ≡ ok a) × ((k a y.0).1 ≡ ok b) × ((resume k y).0 ≡ (k a y.0).0)
    go (t, ok a) e = (a, refl, e, refl)
    go (t, err x) e = cc e

pub in_transaction-ok :
    {A : Type 0} (m : Tx A) (s : Store) {a : A}
    → (in_transaction m s).1 ≡ ok a
    → m s ≡ ok (a, (in_transaction m s).0)
unfolding in_transaction
in_transaction-ok {A} m s {a} h = go (m s) h
  where
    go :
        (r : Result ServiceError (A × Store)) → (settled s r).1 ≡ ok a → r ≡ ok (a, (settled s r).0)
    go (ok (x, t)) e = cc e
    go (err x) e = cc e

-- The first of the checks did not fail, and none of the others.
pub check_all-none :
    (b : Bool) (e : ServiceError) (cs : List (Bool × ServiceError))
    → check_all ((b, e) ∷ cs) ≡ none
    → (b ≡ false) × (check_all cs ≡ none)
unfolding check_all
check_all-none true e cs h = cc h
check_all-none false e cs h = (refl, h)

pub run_unless-ok :
    {A : Type 0} (x : Option ServiceError) (m : Run A) (s : Store) {a : A}
    → (run_unless x m s).1 ≡ ok a
    → (x ≡ none) × (run_unless x m s ≡ m s)
unfolding run_unless
run_unless-ok none m s h = (refl, refl)
run_unless-ok (some e) m s h = cc h
