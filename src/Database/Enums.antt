-- ===== src/Database/Enums.antt =====
-- The enumerations of the schema, and their comparison by `===` or `IN`.
use kaktus.Base.{ℕ, Bool, true, false, ◌==◌}
use kaktus.Offers.Scope.{BookingStatus}

pub data MilestoneStatus : Type 0 where
  scheduled in_progress pending_confirmation released disputed refunded : MilestoneStatus

pub data EngagementStatus : Type 0 where
  pending_payment active completed cancelled disputed : EngagementStatus

pub data HoldStatus : Type 0 where
  held converted released expired : HoldStatus

pub data PaymentStatus : Type 0 where
  initiated requires_action captured failed refunded partially_refunded : PaymentStatus

pub data LedgerAccount : Type 0 where
  psp_receivable platform_escrow coach_payable platform_revenue student_refund psp_fee :
      LedgerAccount

pub data LedgerDirection : Type 0 where
  debit credit : LedgerDirection

pub data RefundStatus : Type 0 where
  pending submitted settled failed : RefundStatus

pub data PayoutStatus : Type 0 where
  pending submitted paid failed : PayoutStatus

pub data InviteStatus : Type 0 where
  pending accepted declined cancelled expired : InviteStatus

pub data DisputeStatus : Type 0 where
  open_ awaiting_evidence under_review resolved_release resolved_refund resolved_split withdrawn :
      DisputeStatus

-- status IN ('SCHEDULED', 'IN_PROGRESS', 'PENDING_CONFIRMATION')
abbrev pub is_freezable : MilestoneStatus → Bool
is_freezable MilestoneStatus.scheduled = true
is_freezable in_progress = true
is_freezable pending_confirmation = true
is_freezable _ = false

-- status IN ('SCHEDULED', 'IN_PROGRESS', 'PENDING_CONFIRMATION', 'DISPUTED')
abbrev pub is_unsettled : MilestoneStatus → Bool
is_unsettled MilestoneStatus.scheduled = true
is_unsettled in_progress = true
is_unsettled pending_confirmation = true
is_unsettled MilestoneStatus.disputed = true
is_unsettled _ = false

abbrev pub is_disputed : MilestoneStatus → Bool
is_disputed MilestoneStatus.disputed = true
is_disputed _ = false

abbrev pub is_pending_confirmation : MilestoneStatus → Bool
is_pending_confirmation pending_confirmation = true
is_pending_confirmation _ = false

-- status IN ('OPEN', 'AWAITING_EVIDENCE', 'UNDER_REVIEW')
abbrev pub is_open : DisputeStatus → Bool
is_open open_ = true
is_open awaiting_evidence = true
is_open under_review = true
is_open _ = false

abbrev pub is_held_slot : HoldStatus → Bool
is_held_slot held = true
is_held_slot _ = false

abbrev pub is_scheduled : BookingStatus → Bool
is_scheduled BookingStatus.scheduled = true
is_scheduled _ = false

abbrev pub is_captured : PaymentStatus → Bool
is_captured captured = true
is_captured _ = false

abbrev pub is_pending_payment : EngagementStatus → Bool
is_pending_payment pending_payment = true
is_pending_payment _ = false

abbrev pub is_active : EngagementStatus → Bool
is_active EngagementStatus.active = true
is_active _ = false

abbrev account_tag : LedgerAccount → ℕ
account_tag psp_receivable = 0
account_tag platform_escrow = 1
account_tag coach_payable = 2
account_tag platform_revenue = 3
account_tag student_refund = 4
account_tag psp_fee = 5

abbrev pub same_account : LedgerAccount → LedgerAccount → Bool
same_account a b = account_tag a == account_tag b

abbrev pub is_debit : LedgerDirection → Bool
is_debit debit = true
is_debit credit = false

abbrev pub is_credit : LedgerDirection → Bool
is_credit credit = true
is_credit debit = false

-- status IN ('INITIATED', 'REQUIRES_ACTION', 'CAPTURED')
abbrev pub is_live : PaymentStatus → Bool
is_live initiated = true
is_live requires_action = true
is_live captured = true
is_live _ = false
