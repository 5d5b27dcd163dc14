-- ===== src/Jobs/Payouts/Whole.antt =====
-- A payout pays the whole balance, once a week.
use kaktus.Base.{
  ℕ, ◌≤◌, false, some, ◌≡◌, refl, ◌∙◌, arith, ltb, ◌==◌, ==_refl, ok, any, Bool-cases, inl, inr,
}
use kaktus.Base.Int.{ℤ, pos, negsuc, ◌-ℤ◌, int_laws}
use kaktus.Payments.Ledger.{post_payout, coach_available_balance_minor}
use kaktus.Payments.Ledger.Escrow.{payout-balance, only}
use kaktus.Database.{Store, >>=-ok}
use kaktus.Jobs.Payouts.{
  min_payout_minor, same_payout_key, add_payout, create_payout, pay_balance, payout_transaction,
}

-- What a payout of `n` to a coach does.
abbrev Pays : ℕ → ℕ × ℕ → Store → ℕ → Store → Type 0
Pays coach week s n t =
    (any (same_payout_key coach week) s.payouts ≡ false)
    × ((c : ℕ)
        → coach_available_balance_minor t c
          ≡ coach_available_balance_minor s c -ℤ only (coach == c) n)

create_payout-Pays :
    (coach n : ℕ) (week : ℕ × ℕ) (s : Store) {id : ℕ} {t : Store}
    → create_payout coach n week s ≡ ok (some id, t)
    → Pays coach week s n t
unfolding create_payout add_payout coach_available_balance_minor
create_payout-Pays coach n week s {id} {t} h =
    elim (Bool-cases (any (same_payout_key coach week) s.payouts)) [
      | inl taken ↦ cc (rw taken at h)
      | inr free ↦
          let (g, u, posts, done) = >>=-ok (post_payout s.next_id coach n) _ _ (rw free at h) in
          let same : u ≡ t = cc done in
          (free, λ c. rw (← same) (payout-balance s.next_id coach n _ posts c))
    ]

pay_balance-Pays :
    (coach : ℕ) (week : ℕ × ℕ) (b : ℤ) (s : Store) {id : ℕ} {t : Store}
    → pay_balance coach week b s ≡ ok (some id, t)
    → (n : ℕ) × (b ≡ pos n) × (min_payout_minor ≤ n) × Pays coach week s n t
unfolding pay_balance
pay_balance-Pays coach week (negsuc n) s h = cc h
pay_balance-Pays coach week (pos n) s h = elim (Bool-cases (ltb n min_payout_minor)) [
  | inl small ↦ cc (rw (small, pay_balance) at h)
  | inr enough ↦
      (n, refl, ground arith, create_payout-Pays coach n week s (rw (enough, pay_balance) at h))
]

-- A payout is made only to a coach who has had none this week and whose balance is at least the
-- minimum; it pays the whole balance out, to the last unit, and no other coach's.
pub payout_pays_whole :
    (coach : ℕ) (week : ℕ × ℕ) (s : Store) {id : ℕ} {t : Store}
    → payout_transaction coach week s ≡ ok (some id, t)
    → (any (same_payout_key coach week) s.payouts ≡ false)
      × ((n : ℕ) × (coach_available_balance_minor s coach ≡ pos n) × (min_payout_minor ≤ n))
      × (coach_available_balance_minor t coach ≡ pos 0)
      × ((c : ℕ)
          → (coach == c) ≡ false
          → coach_available_balance_minor t c ≡ coach_available_balance_minor s c)
unfolding payout_transaction
payout_pays_whole coach week s h =
    let (n, whole, enough, paid) = pay_balance-Pays coach week _ s h in
    let (free, pays) = paid in
    (
      free,
      (n, whole, enough),
      pays coach ∙ rw (whole, ==_refl coach) (omega int_laws),
      (λ c other. pays c ∙ rw other (omega int_laws)),
    )
