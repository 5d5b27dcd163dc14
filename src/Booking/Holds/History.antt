-- ===== src/Booking/Holds/History.antt =====
-- Any sequence of the operations on holds, each in a transaction of its own.
use kaktus.Base.{ℕ, List, [], ◌∷◌, Result, ok, err, ◌≡◌, Bool, ◌≤◌}
use kaktus.Database.{Milestone, Store, Tx, ⊤, ServiceError}
use kaktus.Database.Keeps.{Keeps}
use kaktus.Booking.Holds.{
  HoldRequest, acquire_holds, extend_holds, release_holds, expire_stale_holds,
  convert_holds_to_bookings,
}
use kaktus.Booking.Holds.Exclusive.{
  IsExclusive, occupancy, acquire_holds-IsExclusive, extend_holds-IsExclusive,
  release_holds-IsExclusive, expire_stale_holds-IsExclusive, convert_holds_to_bookings-IsExclusive,
}

pub data HoldOp : Type 0 where
  acquire : HoldRequest → ℕ → HoldOp
  extend : ℕ → ℕ → ℕ → HoldOp
  release : ℕ → HoldOp
  sweep : ℕ → HoldOp
  convert : ℕ → ℕ → (Milestone → Bool) → HoldOp

abbrev pub run_op : HoldOp → Tx ⊤
run_op (acquire req now) = acquire_holds req now
run_op (extend offer minutes now) = extend_holds offer minutes now
run_op (release offer) = release_holds offer
run_op (sweep now) = expire_stale_holds now
run_op (convert offer engagement chosen) = convert_holds_to_bookings offer engagement chosen

-- A transaction that throws is rolled back.
abbrev pub after : Store → Result ServiceError (⊤ × Store) → Store
after s (ok (_, t)) = t
after s (err _) = s

unfoldable pub run_ops : List HoldOp → Store → Store
run_ops [] s = s
run_ops (op ∷ ops) s = run_ops ops (after s (run_op op s))

run_op-Keeps : (op : HoldOp) → Keeps IsExclusive (run_op op)
run_op-Keeps (acquire req now) = acquire_holds-IsExclusive req now
run_op-Keeps (extend offer minutes now) = extend_holds-IsExclusive offer minutes now
run_op-Keeps (release offer) = release_holds-IsExclusive offer
run_op-Keeps (sweep now) = expire_stale_holds-IsExclusive now
run_op-Keeps (convert offer engagement chosen) =
    convert_holds_to_bookings-IsExclusive offer engagement chosen

after-IsExclusive :
    (op : HoldOp) (s : Store) (r : Result ServiceError (⊤ × Store))
    → run_op op s ≡ r
    → IsExclusive s
    → IsExclusive (after s r)
after-IsExclusive op s (ok (u, t)) e x = run_op-Keeps op s (u, t) e x
after-IsExclusive op s (err _) e x = x

-- Whatever operations on holds run one after another, acquiring, extending, releasing, sweeping or
-- converting, and whether each goes through or fails, at no instant is a coach taken by two live
-- holds or scheduled bookings, if none was before.
pub never_double_booked :
    (ops : List HoldOp) (s : Store)
    → IsExclusive s
    → (coach t : ℕ) → occupancy coach t (run_ops ops s) ≤ 1
unfolding run_ops
never_double_booked [] s x = x
never_double_booked (op ∷ ops) s x =
    never_double_booked ops (after s (run_op op s))
      (after-IsExclusive op s (run_op op s) (λ i. run_op op s) x)
