-- ===== src/Database/Samples.antt =====
-- An empty database, for the tests.
use kaktus.Base.{[]}
use kaktus.Database.Rows.{Store}

abbrev pub empty_store : Store
empty_store = record {
  offers = [];
  engagements = [];
  milestones = [];
  bookings = [];
  slot_holds = [];
  ledger_entries = [];
  payments = [];
  refunds = [];
  disputes = [];
  coach_profiles = [];
  student_profiles = [];
  payouts = [];
  commission_policies = [];
  onboarding_sessions = [];
  conversations = [];
  meeting_invites = [];
  offer_events = [];
  next_id = 100;
}
