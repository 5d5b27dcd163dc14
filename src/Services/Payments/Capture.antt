-- ===== src/Services/Payments/Capture.antt =====
-- What a capture rests on, and what is left of one whose offer cannot be moved.
use kaktus.Base.{
  ℕ, false, Option, none, some, List, [], ◌∷◌, map, ◌≡◌, refl, sym, ap, ◌∙◌, Result, ok, err, ◌==◌,
  ==→eq, ==_refl, any, update_where, find-update_where, Bool-cases, inl, inr,
}
use kaktus.Base.Sums.{sum}
use kaktus.Payments.Ledger.{has_id}
use kaktus.Database.{
  Payment, PaymentStatus, Store, Tx, ⊤, ◌>>=◌, ◌>>◌, >>=-ok, >>=-next, ServiceError,
  amount_mismatch, is_captured,
}
use kaktus.Database
use kaktus.Services.Run.{in_transaction, and_then, resume, return, settled}
use kaktus.Services.Offers.{transition_offer}
use kaktus.Services.Payments.{
  CheckoutRetrieveResult, Captured, ItemTransaction, captured, pending, failed, already_processed,
  ReconcileResult, reconciled, amounts_differ, update_payment, map_item, mark_captured,
  record_capture, payment_by_id, capture_transaction, capture_request, is_swallowed, swallow,
  move_offer, capture, apply_answer, reconcile_found, reconcile_checkout, payment_by_token,
}

amounts_differ-agree :
    (r : Captured) (expected : ℕ)
    → amounts_differ r expected ≡ false
    → (r.paid_price_minor ≡ expected)
      × (sum (map (λ (t : ItemTransaction). t.price_minor) r.item_transactions) ≡ expected)
unfolding amounts_differ
amounts_differ-agree r expected h =
    let items = sum (map (λ (t : ItemTransaction). t.price_minor) r.item_transactions) in
    elim (Bool-cases (r.paid_price_minor == expected)) [
      | inr other ↦ cc (rw other at h)
      | inl paid ↦ elim (Bool-cases (items == expected)) [
        | inr other ↦ cc (rw (paid, other) at h)
        | inl sums ↦ (==→eq r.paid_price_minor expected paid, ==→eq items expected sums)
      ]
    ]

-- What a capture of a payment rests on.
abbrev Verified : CheckoutRetrieveResult → Payment → Type 0
Verified answer p =
    (c : Captured) × (answer ≡ captured c)
    × (c.paid_price_minor ≡ p.amount_minor)
    × (sum (map (λ (t : ItemTransaction). t.price_minor) c.item_transactions) ≡ p.amount_minor)

-- A run that ends in `return x` returns `x` where it returns.
returned :
    {A B : Type 0} (y : Store × Result ServiceError A) (x : B) {t : Store} {b : B}
    → resume (λ _. return x) y ≡ (t, ok b)
    → b ≡ x
returned (s, ok a) x h = cc h
returned (s, err e) x h = cc h

answer-Verified :
    (answer : CheckoutRetrieveResult) (p : Payment) (now : ℕ) (s : Store) {t : Store}
    {r : ReconcileResult}
    → apply_answer answer p now s ≡ (t, ok r)
    → r.outcome ≡ captured
    → Verified answer p
unfolding apply_answer in_transaction and_then
answer-Verified pending p now s h o = cc (h, o)
answer-Verified failed p now s h o =
    let e = returned (in_transaction (update_payment p.id _) s) (reconciled failed p none) h in
    cc (rw e at o)
answer-Verified (captured c) p now s h o = elim (Bool-cases (amounts_differ c p.amount_minor)) [
  | inl differ ↦ cc (rw (differ, apply_answer) at h)
  | inr agree ↦
      let (paid, sums) = amounts_differ-agree c p.amount_minor agree in (c, refl, paid, sums)
]

found-Verified :
    (retrieve : ℕ → CheckoutRetrieveResult) (token : ℕ) (x : Option Payment) (now : ℕ) (s : Store)
    {t : Store} {r : ReconcileResult}
    → reconcile_found retrieve token x now s ≡ (t, ok r)
    → r.outcome ≡ captured
    → (p : Payment) × (x ≡ some p) × Verified (retrieve token) p
unfolding reconcile_found
found-Verified retrieve token none now s h o = cc h
found-Verified retrieve token (some p) now s h o = elim (Bool-cases (is_captured p.status)) [
  | inl done ↦ cc (rw (done, reconcile_found) at h, o)
  | inr fresh ↦
      (p, refl, answer-Verified (retrieve token) p now s (rw (fresh, reconcile_found) at h) o)
]

-- A reconciliation reports a capture only where the provider itself answered that the checkout is
-- captured, with a price and items that both sum to the amount of the payment that has the token.
pub capture-Verified :
    (retrieve : ℕ → CheckoutRetrieveResult) (token now : ℕ) (s : Store) {t : Store}
    {r : ReconcileResult}
    → reconcile_checkout retrieve token now s ≡ (t, ok r)
    → r.outcome ≡ captured
    → (p : Payment) × (payment_by_token token s ≡ some p) × Verified (retrieve token) p
unfolding reconcile_checkout
capture-Verified retrieve token now s h o =
    found-Verified retrieve token (payment_by_token token s) now s h o

map_items-payments :
    (items : List ItemTransaction) (s : Store) {r : ⊤ × Store}
    → Database.for_each map_item items s ≡ ok r
    → r.1.payments ≡ s.payments
unfolding map_item
map_items-payments [] s h = cc h
map_items-payments (i ∷ items) s h = map_items-payments items _ h

update_payment-inv :
    (id : ℕ) (change : Payment → Payment) (s : Store) {r : ⊤ × Store}
    → update_payment id change s ≡ ok r
    → r.1.payments ≡ update_where (λ (p : Payment). p.id == id) change s.payments
unfolding update_payment
update_payment-inv id change s h =
    elim (Bool-cases (any (λ (p : Payment). p.id == id) s.payments)) [
      | inl there ↦ cc (rw there at h)
      | inr gone ↦ cc (rw gone at h)
    ]

capture_transaction-record :
    (c : Captured) (p : Payment) (s : Store)
    → payment_by_id p.id s ≡ some p
    → is_captured p.status ≡ false
    → capture_transaction c p.id s
      ≡ (update_payment p.id (mark_captured c.payment_id)
            >> Database.for_each map_item c.item_transactions)
          s
unfolding capture_transaction record_capture update_payment
capture_transaction-record c p s row open_ =
    >>=-next (Database.or_throw (payment_by_id p.id s) Database.not_found) (record_capture c) s
      (ap (λ o. Database.or_throw o Database.not_found s) row)
    ∙ rw (record_capture, open_) refl

capture_transaction-payments :
    (c : Captured) (p : Payment) (s : Store) {r : ⊤ × Store}
    → payment_by_id p.id s ≡ some p
    → is_captured p.status ≡ false
    → capture_transaction c p.id s ≡ ok r
    → r.1.payments
      ≡ update_where (λ (x : Payment). x.id == p.id) (mark_captured c.payment_id) s.payments
capture_transaction-payments c p s row open_ h =
    let goes = sym (capture_transaction-record c p s row open_) ∙ h in
    let (_, u, writes, maps) = >>=-ok (update_payment p.id (mark_captured c.payment_id)) _ s goes in
    map_items-payments c.item_transactions u maps ∙ update_payment-inv p.id _ s writes

swallow-loud :
    (A : Type 0) (u : Store) (e : ServiceError)
    → is_swallowed e ≡ false
    → swallow {A = A} (u, err e) ≡ (u, err e)
unfolding swallow
swallow-loud A u e loud = rw (swallow, loud) refl

move_offer-refused :
    (offer now : ℕ) (u : Store) {e : ServiceError}
    → transition_offer (capture_request offer) now u ≡ err e
    → is_swallowed e ≡ false
    → move_offer offer now u ≡ (u, err e)
unfolding move_offer in_transaction
move_offer-refused offer now u {e} refuses loud =
    ap (λ r. swallow (settled u r)) refuses ∙ swallow-loud _ u e loud

-- Where a capture is recorded but the offer cannot be moved, for another reason than that a caller
-- was faster, the call throws that reason, and what it leaves is final: whatever the provider
-- answers later, a reconciliation of the token reports ALREADY_PROCESSED and changes nothing.
pub stuck_capture :
    (retrieve : ℕ → CheckoutRetrieveResult) (token now : ℕ) (s : Store) {u : Store} {p : Payment}
    {c : Captured} {offer : ℕ} {e : ServiceError}
    → payment_by_token token s ≡ some p
    → payment_by_id p.id s ≡ some p
    → is_captured p.status ≡ false
    → retrieve token ≡ captured c
    → amounts_differ c p.amount_minor ≡ false
    → p.offer_id ≡ some offer
    → capture_transaction c p.id s ≡ ok (tt, u)
    → transition_offer (capture_request offer) now u ≡ err e
    → is_swallowed e ≡ false
    → (reconcile_checkout retrieve token now s ≡ (u, err e))
      × ((retrieve' : ℕ → CheckoutRetrieveResult) (later : ℕ)
          → reconcile_checkout retrieve' token later u
            ≡ (u, ok (reconciled already_processed (mark_captured c.payment_id p) (some p.id))))
unfolding reconcile_checkout reconcile_found apply_answer capture in_transaction and_then
stuck_capture retrieve token now s {u} {p} {c} {offer} {e} row by_id open_ answers agree owner
      records refuses loud =
    let rows = capture_transaction-payments c p s by_id open_ records in
    let found =
      find-update_where (λ (x : Payment). x.id == p.id) (mark_captured c.payment_id)
        (λ (x : Payment). has_id token x.token) s.payments (λ x. refl) (==_refl p.id) row in
    let done : payment_by_token token u ≡ some (mark_captured c.payment_id p) = rw rows found in
    let moves = move_offer-refused offer now u refuses loud in
    (
      rw (row, reconcile_found, open_, answers, apply_answer, agree, owner, records, moves) refl,
      (λ retrieve' later. rw (done, reconcile_found) refl),
    )
