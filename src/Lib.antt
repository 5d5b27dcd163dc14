-- ===== src/Lib.antt =====
-- Kaktus is a marketplace where students book coaches. An offer is negotiated, paid into escrow,
-- worked off in milestones and released, refunded or disputed. This library models the parts that
-- decide about money and time, and proves what they promise.
--
-- How the parts interact. The state machine of offers (src/lib/offers/state-machine.ts) decides
-- whether an event may move an offer and returns the side effects as data; it touches no storage.
-- The side effects act on three other parts: the slot holds (src/lib/booking/holds.ts) reserve and
-- book the time of a coach, the milestone periods (src/lib/offers/scope.ts) cut an engagement into
-- milestones, and the ledger (src/lib/payments/escrow.ts) posts balanced groups of entries for
-- funding, release, refund and payout. The offer service asks the machine for a plan and carries
-- its effects out in one transaction; the dispute service freezes, splits and resolves through it,
-- the payment service brings the provider's money in, the milestone service and its worker pay it
-- out, and the jobs run all of it on a tick. The basket of the payment provider
-- (src/lib/payments/iyzico/money.ts) carries the same splits as the ledger.
--
-- The files.
--   Offers/StateMachine   OfferStatus, the table (Table: one `..._row` per event of TRANSITIONS),
--                         checkGuards, transition, availableEvents and canTransition. Diagram has
--                         the moves of the table as a relation, and Drawing the arrows of the comment
--                         at the top of the source, which differ in places.
--   Offers/Scope          milestonePeriods, milestonePeriodsForSlots, milestoneCompletableAt.
--   Payments/Split        splitAmount, splitIntoMilestones, and computeBreakdown of
--                         src/lib/offers/draft.ts.
--   Payments/Basket       buildSplit of src/lib/payments/iyzico/money.ts.
--   Payments/Ledger       postGroup and every operation of escrow.ts on the store.
--   Database              the rows of prisma/schema.prisma (Rows), its enumerations (Enums), the
--                         interactive transaction (Transaction) and the lemmas that say which
--                         transactions keep an invariant (Keeps).
--   Booking/Holds         acquireHolds, extendHolds, releaseHolds, convertHoldsToBookings and
--                         expireStaleHolds, over the constraints of
--                         prisma/migrations/20260101000000_marketplace_constraints/migration.sql.
--   Services/Offers       transitionOffer of src/server/services/offer-service.ts: the snapshot and
--                         the plan (plan_transition), the transaction with the compare-and-swap of
--                         src/lib/tx.ts (commit_transition), each side effect (Effects for holds,
--                         engagement and milestones, Money for the escrow). Closed is the interface
--                         that an invariant of the whole store must fill, and Kept carries it
--                         through every effect. Create is createOffer with resolveCommissionBps.
--   Services/Disputes     openDispute, resolveDispute and settleSplit of
--                         src/server/services/dispute-service.ts, as a Run: transactions one after
--                         another, of which those that committed stay when a later one throws.
--                         NoShow is flagCoachNoShow; Resolved and Opened say what a call that
--                         returns has done.
--   Services/Run          what a call of a service is: transactions in sequence, and what all of
--                         them keep (Leaves).
--   Services/Milestones   src/jobs/milestones.ts: the three passes of runMilestoneWorker and
--                         maybeCompleteEngagement. Actions is markMilestoneCompleted and
--                         approveMilestoneRelease of src/server/services/milestone-service.ts, over
--                         the provider's approveItem, which is a parameter.
--   Services/Payments     reconcileCheckout of src/server/services/payment-service.ts; Checkout is its
--                         startCheckout with ensureMilestones and buildCheckoutInput. The provider's
--                         answers are parameters.
--   Jobs                  src/jobs/workers.ts and src/jobs/provider-sync.ts: Sweeps (offers that ran out
--                         or start, stale checkouts, approvals), Refunds, Payouts, and Frequent, the
--                         five-minute tick that runs them in order.
--   Time/Windows          src/lib/time/windows.ts: normalizeWindows, totalMinutes, intersectWindows,
--                         overlapMinutes and subtractWindow, and the minutes that they cover.
--   Time/Grid             cellsToRanges and rangesToCells of src/lib/availability/grid.ts.
--   Base                  lists, results, integers and sums over the native natural numbers.
--
-- How it is modelled.
--   Numbers. The source's numbers are integers below 2^53, where its arithmetic is exact, so a
--   natural or an integer stands for them and Math.floor of a quotient is the division of naturals
--   (floor_share of Payments/Basket writes it out for a negative rate). A difference that may be
--   negative is taken in ℤ. Instants are milliseconds since the epoch and
--   ids are naturals. The currency columns are left out: the program has one currency.
--   Transactions. A transaction is a function from the store to an error or a value and a new store.
--   An error carries no store, as PostgreSQL rolls back. The store is passed explicitly, so the
--   transactions of one history run one after another; advisory locks do nothing there. A
--   call of transitionOffer plans on a snapshot and commits on a store that may be a later one.
--   Ids that the database or randomUUID makes come from next_id, which grows.
--   Constraints of the migration (no overlap, positive amounts, ordered ranges) are checks of the
--   operation that writes the row, and refuse it.
--   Recursion is structural everywhere, so no fuel is needed.
--   Texts (descriptions, reasons, error messages) are left out where no code branches on them.
--   parseScope belongs to a validation library; the model starts from the slots it returns, and the
--   sort of an array, which is stable, is an insertion sort.
--
-- What is not modelled. The audit rows, which no code reads back; the unique keys of a refund and of an
-- engagement, which could only refuse a write. Matching (floating point), chat screening (regular
-- expressions), the provider's HTTP client and signatures, storage, keys, sign-in and mail (other
-- systems), and the pages, queries and seed data. The conversion of amounts to decimal strings, the
-- rules of meetings and their invites (but for their expiry), reviews, the price floor, the rate limits
-- and the planner.
pub mod Base
pub mod Offers
pub mod Payments
pub mod Database
pub mod Booking
pub mod Services
pub mod Jobs
pub mod Time
