-- ===== src/Services/Disputes/Opened.antt =====
-- What the opening of a dispute that returns leaves: a new ticket on a frozen offer, or the store as it
-- was and the ticket that is open.
use kaktus.Base.{ℕ, true, none, some, [], ◌∷◌, ◌++◌, ◌≡◌}
use kaktus.Offers.StateMachine.{OfferStatus, disputed, open_dispute}
use kaktus.Database.{Dispute, DisputeStatus, Engagement, Store, is_open}
use kaktus.Services.Offers.Moved.{IsMoved}
use kaktus.Services.Disputes.{last_open}

-- The offer went to DISPUTED and an open ticket with a new id was added.
abbrev pub IsFrozen : Engagement → ℕ → ℕ → Store → Store → Type 0
IsFrozen e id now s u =
    (t : Store) × (from : OfferStatus) × IsMoved e.offer_id open_dispute from disputed now s t
    × (id ≡ t.next_id)
    × (u.disputes
        ≡ t.disputes
          ++ (record {
            id = id;
            engagement_id = e.id;
            status = DisputeStatus.open_;
            coach_share_minor = none;
          }
              ∷ []))

-- Nothing was written, and the ticket is one of the engagement that is open.
abbrev pub IsHandedBack : Engagement → ℕ → Store → Store → Type 0
IsHandedBack e id s u =
    (u ≡ s)
    × ((d : Dispute) × (last_open e.id s.disputes ≡ some d)
        × (d.id ≡ id)
        × (d.engagement_id ≡ e.id)
        × (is_open d.status ≡ true))
