-- ===== src/Payments/Ledger/Balance.antt =====
-- Every posting keeps every entry group balanced, and moves the derived balances by its amounts.
use kaktus.Base.{
  ℕ, ◌+◌, true, ◌&&◌, List, [], ◌∷◌, map, ◌≡◌, sym, ap, ◌∙◌, arith, ok, ◌==◌, if◌then◌else◌, ==→eq,
}
use mathlib.Core.Path.{ap₂}
use kaktus.Base.Int.{ℤ, pos, ◌+ℤ◌, ◌-ℤ◌, eqb_ℤ, int_laws}
use kaktus.Base.Sums.{sum_by, sum_by-append}
use kaktus.Database.{Store, LedgerDirection, debit, credit, is_debit, is_credit}
use kaktus.Payments.Ledger.{EntryInput, Refs, entry_row, balance_from, signed, post_group, flow}
use kaktus.Payments.Ledger.Flow.{post_group-inv}

-- The debits and the credits of a group that is to be posted.
abbrev debits : List EntryInput → ℕ
debits = sum_by (λ e. if is_debit e.direction then e.amount_minor else 0)

abbrev credits : List EntryInput → ℕ
credits = sum_by (λ e. if is_credit e.direction then e.amount_minor else 0)

signed_step :
    (direction : LedgerDirection) (sum : ℤ) (amount d c : ℕ)
    → sum +ℤ (if is_debit direction then pos amount else pos 0 -ℤ pos amount) +ℤ pos d -ℤ pos c
      ≡ sum
        +ℤ pos ((if is_debit direction then amount else 0) + d)
        -ℤ pos ((if is_credit direction then amount else 0) + c)
signed_step debit sum amount d c = omega int_laws
signed_step credit sum amount d c = omega int_laws

balance_from_lem :
    (sum : ℤ) (es : List EntryInput)
    → balance_from sum es ≡ sum +ℤ pos (debits es) -ℤ pos (credits es)
balance_from_lem sum [] = omega int_laws
balance_from_lem sum (e ∷ es) =
    balance_from_lem (sum +ℤ signed e) es
    ∙ signed_step e.direction sum e.amount_minor (debits es) (credits es)

debits-eq-credits :
    (es : List EntryInput) → eqb_ℤ (balance_from (pos 0) es) (pos 0) ≡ true → debits es ≡ credits es
debits-eq-credits es h =
    let e = ==→eq _ _ (rw (balance_from_lem (pos 0) es) at h) in omega (int_laws, e)

group_debits :
    (group id : ℕ) (refs : Refs) (es : List EntryInput)
    → flow (λ e. (e.entry_group_id == group) && is_debit e.direction) (map (entry_row id refs) es)
      ≡ (if id == group then debits es else 0)
group_debits group id refs [] = ground arith
group_debits group id refs (e ∷ es) = ground (arith, group_debits group id refs es)

group_credits :
    (group id : ℕ) (refs : Refs) (es : List EntryInput)
    → flow (λ e. (e.entry_group_id == group) && is_credit e.direction) (map (entry_row id refs) es)
      ≡ (if id == group then credits es else 0)
group_credits group id refs [] = ground arith
group_credits group id refs (e ∷ es) = ground (arith, group_credits group id refs es)

-- In every entry group the debits equal the credits.
abbrev pub IsBalanced : Store → Type 0
IsBalanced s =
    (group : ℕ)
    → flow (λ e. (e.entry_group_id == group) && is_debit e.direction) s.ledger_entries
      ≡ flow (λ e. (e.entry_group_id == group) && is_credit e.direction) s.ledger_entries

-- A posting that goes through keeps every entry group balanced.
pub post_group-IsBalanced :
    (es : List EntryInput) (refs : Refs) (s : Store) {g : ℕ} {t : Store}
    → post_group es refs s ≡ ok (g, t)
    → IsBalanced s
    → IsBalanced t
post_group-IsBalanced es refs s h balanced group =
    let (even, _, _, shape) = post_group-inv es refs s h in
    let id = s.next_id in
    rw shape (
      sum_by-append _ s.ledger_entries (map (entry_row id refs) es)
      ∙ ap₂ (λ (a b : ℕ). a + b) (balanced group)
          (group_debits group id refs es
            ∙ ap (λ (n : ℕ). if id == group then n else 0) (debits-eq-credits es even)
            ∙ sym (group_credits group id refs es))
      ∙ sym (sum_by-append _ s.ledger_entries (map (entry_row id refs) es)))
