-- ===== src/Services/Samples.antt =====
-- An offer of two months that the coach and the student carry out, in a given state.
use kaktus.Base.{ℕ, true, none, some, List, [], ◌∷◌, map}
use kaktus.Base.Int.{pos}
use kaktus.Offers.StateMachine.{student, OfferStatus}
use kaktus.Payments.Ledger.{entry_row, entry, no_refs}
use kaktus.Database.{
  EngagementStatus, Milestone, MilestoneStatus, Dispute, Store, psp_receivable, platform_escrow,
  debit, credit,
}
use kaktus.Database.Samples.{empty_store}

abbrev pub month : ℕ → ℕ → ℕ → MilestoneStatus → Milestone
month id index amount status = record {
  id = id;
  engagement_id = 2;
  index = index;
  period_start = 0;
  period_end = 0;
  amount_minor = amount;
  status = status;
  provider_transaction_id = some 55;
  provider_approved_at = none;
  auto_release_at = some 40;
  released_at = none;
  refunded_at = none;
}

-- 1500 of the student's are in the escrow.
abbrev pub engaged : OfferStatus → EngagementStatus → List Milestone → List Dispute → Store
engaged offer engagement milestones disputes = record empty_store {
  offers =
      record {
        id = 1;
        coach_profile_id = 7;
        student_profile_id = 5;
        initiator_role = student;
        scope_slots = [];
        price_minor = 1500;
        commission_bps = 1800;
        start_date = 0;
        end_date = 100;
        milestone_count = 2;
        status = offer;
        version = 1;
        parent_offer_id = none;
        expires_at = 172800000;
        accepted_at = none;
        cancelled_at = none;
      }
      ∷ [];
  engagements =
      record {
        id = 2;
        offer_id = 1;
        coach_profile_id = 7;
        student_profile_id = 5;
        status = engagement;
        start_date = 0;
        end_date = 100;
        total_minor = 1500;
        commission_bps = 1800;
        completed_at = none;
      }
      ∷ [];
  milestones = milestones;
  disputes = disputes;
  student_profiles = record { id = 5; user_id = 50 } ∷ [];
  coach_profiles =
      record {
        id = 7;
        user_id = 70;
        is_approved = true;
        submerchant_key = some 77;
        commission_bps_override = none;
        active_engagements = pos 1;
        completed_engagements = 0;
      }
      ∷ [];
  ledger_entries =
      map (entry_row 9 (record no_refs { engagement_id = some 2 }))
        (entry psp_receivable debit 1500 ∷ entry platform_escrow credit 1500 ∷ []);
}
