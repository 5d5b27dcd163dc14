-- ===== src/Services/Disputes/Resolved.antt =====
-- What a resolution of a dispute that returns has checked, and how it leaves the offer and the ticket.
use kaktus.Base.{ℕ, some, ◌≡◌, ok, select, update_where, length}
use kaktus.Base.Int.{ℤ}
use kaktus.Offers.StateMachine.{
  active, disputed, refunded, resolve_dispute_release, resolve_dispute_refund,
}
use kaktus.Database.{Dispute, DisputeStatus, Engagement, Store}
use kaktus.Services.Offers.Moved.{IsMoved}
use kaktus.Services.Disputes.{
  Resolution, release, refund, split, settle_split, split_request, share_of, open_with_id,
}

-- One ticket with this id was still open, and it is changed as given, and no other ticket.
abbrev pub IsClosedBy : (Dispute → Dispute) → ℕ → Store → Store → Type 0
IsClosedBy change id s t =
    (length (select (open_with_id id) s.disputes) ≡ 1)
    × (t.disputes ≡ update_where (open_with_id id) change s.disputes)

abbrev pub with_status : DisputeStatus → Dispute → Dispute
with_status status d = record d { status = status }

abbrev pub split_status : ℤ → Dispute → Dispute
split_status share d = record d {
  status = DisputeStatus.resolved_split;
  coach_share_minor = some (share_of share);
}

-- What each resolution does, in its order: the offer moves and the ticket closes, and for a split the
-- money is settled and the ticket closes before the offer moves.
abbrev pub IsResolved : Dispute → Engagement → ℕ → Resolution → Store → Store → Type 0
IsResolved d e now release s u =
    (t : Store) × IsMoved e.offer_id resolve_dispute_release disputed active now s t
    × IsClosedBy (with_status DisputeStatus.resolved_release) d.id t u
IsResolved d e now refund s u =
    (t : Store) × IsMoved e.offer_id resolve_dispute_refund disputed refunded now s t
    × IsClosedBy (with_status DisputeStatus.resolved_refund) d.id t u
IsResolved d e now (split share) s u =
    (v : Store) × (settle_split (split_request e share now) s ≡ ok (tt, v))
    × ((t : Store) × IsClosedBy (split_status share) d.id v t
        × IsMoved e.offer_id resolve_dispute_refund disputed refunded now t u)
