-- ===== src/Payments/Basket.antt =====
-- `buildSplit` of lib/payments/iyzico/money.ts: the basket items that the provider is sent, one for
-- each milestone. A sub-merchant price may be negative, where the rate is out of range.
use kaktus.Base.{
  ℕ, zero, suc, sym, ◌+◌, ◌*◌, ◌/◌, ◌⊎◌, ltb, false, ◌≡◌, refl, arith, true, false, ◌||◌, not, List,
  [], ◌∷◌, map, Result, ok, err, ◌>>◌, throw_if, is_ok, ◌==◌, ◌↔◌, ◌∙◌, ap, ==_refl, ==→eq,
  Bool-cases, inl, inr,
}
use kaktus.Base.Int.{ℤ, pos, negsuc, ◌≤ℤ◌, ◌+ℤ◌, ◌-ℤ◌, ltb_ℤ, int_laws}
use kaktus.Base.Sums.{sum, sum_by}
use kaktus.Payments.Split.{Split, commission, split_amount}
use kaktus.Payments.Split.Commission.{commission_half, split_amount-inv, commission_of_parts}

pub record BasketItem : Type 0 where
  pub price_minor : ℕ
  pub sub_merchant_price_minor : ℤ

pub data BasketError : Type 0 where
  amounts_mismatch invalid_split : BasketError

-- Math.floor((priceMinor * commissionBps) / 10_000), at a rate of either sign.
unfoldable pub floor_share : ℕ → ℤ → ℤ
floor_share price (pos bps) = pos (commission price bps)
floor_share price (negsuc n) = pos 0 -ℤ pos ((price * suc n + 9999) / 10000)

unfoldable pub basket_item : ℤ → ℕ → BasketItem
basket_item bps price = record {
  price_minor = price;
  sub_merchant_price_minor = pos price -ℤ floor_share price bps;
}

-- items.reduce((a, i) => a + i.subMerchantPriceMinor, 0)
abbrev pub net_sum_from : ℤ → List BasketItem → ℤ
net_sum_from a [] = a
net_sum_from a (i ∷ items) = net_sum_from (a +ℤ i.sub_merchant_price_minor) items

unfoldable pub build_split : ℕ → ℤ → List ℕ → Result BasketError (List BasketItem)
build_split total bps amounts = do
  throw_if (not (sum amounts == total)) amounts_mismatch
  let items = map (basket_item bps) amounts
  let net = net_sum_from (pos 0) items
  throw_if (ltb_ℤ (pos total -ℤ net) (pos 0) || ltb_ℤ (pos total) net) invalid_split
  ok items

-- The commissions of the amounts, each rounded down.
abbrev pub shares : ℤ → List ℕ → ℤ
shares bps [] = pos 0
shares bps (x ∷ amounts) = floor_share x bps +ℤ shares bps amounts

-- The sum of the nets is the sum of the prices less the commissions.
net_sum_from_lem :
    (bps : ℤ) (a : ℤ) (amounts : List ℕ)
    → net_sum_from a (map (basket_item bps) amounts) ≡ a +ℤ pos (sum amounts) -ℤ shares bps amounts
unfolding basket_item
net_sum_from_lem bps a [] = omega int_laws
net_sum_from_lem bps a (x ∷ amounts) =
    rw (net_sum_from_lem bps (a +ℤ (pos x -ℤ floor_share x bps)) amounts) (omega int_laws)

net_sum_lem :
    (bps : ℤ) (amounts : List ℕ)
    → net_sum_from (pos 0) (map (basket_item bps) amounts) ≡ pos (sum amounts) -ℤ shares bps amounts
net_sum_lem bps amounts = net_sum_from_lem bps (pos 0) amounts ∙ omega int_laws

-- The second check of the source asks for the sign of the commission.
second_check :
    (total : ℕ) (fee : ℤ)
    → (ltb_ℤ (pos total -ℤ (pos total -ℤ fee)) (pos 0) || ltb_ℤ (pos total) (pos total -ℤ fee))
      ≡ ltb_ℤ fee (pos 0)
unfolding ◌-ℤ◌
second_check total fee = ground arith

build_split-eq :
    (total : ℕ) (bps : ℤ) (amounts : List ℕ)
    → sum amounts ≡ total
    → build_split total bps amounts ≡ (
        throw_if (ltb_ℤ (shares bps amounts) (pos 0)) invalid_split
        >> ok (map (basket_item bps) amounts))
unfolding build_split
build_split-eq total bps amounts h =
    rw (h, net_sum_lem bps amounts, h, ==_refl total, second_check total (shares bps amounts))

build_split-sum :
    (total : ℕ) (bps : ℤ) (amounts : List ℕ) {items : List BasketItem}
    → build_split total bps amounts ≡ ok items
    → sum amounts ≡ total
unfolding build_split
build_split-sum total bps amounts h = elim (Bool-cases (sum amounts == total)) [
  | inl same ↦ ==→eq (sum amounts) total same
  | inr other ↦ cc (rw other at h)
]

build_split-inv :
    (total : ℕ) (bps : ℤ) (amounts : List ℕ) {items : List BasketItem}
    → build_split total bps amounts ≡ ok items
    → (sum amounts ≡ total)
      × (ltb_ℤ (shares bps amounts) (pos 0) ≡ false)
      × (map (basket_item bps) amounts ≡ items)
build_split-inv total bps amounts h =
    let e = build_split-sum total bps amounts h in
    elim (Bool-cases (ltb_ℤ (shares bps amounts) (pos 0))) [
      | inl negative ↦ cc (rw (build_split-eq total bps amounts e, negative) at h)
      | inr fine ↦ (e, fine, cc (rw (build_split-eq total bps amounts e, fine) at h))
    ]

-- At a rate of 0 or more no commission is negative.
shares-pos :
    (bps : ℕ) (amounts : List ℕ) → shares (pos bps) amounts ≡ pos (commission_of_parts bps amounts)
unfolding floor_share
shares-pos bps [] = refl
shares-pos bps (x ∷ amounts) = rw (shares-pos bps amounts) (omega int_laws)

-- At a negative rate each amount but 0 has a negative one.
abbrev rounded_up : ℕ → List ℕ → ℕ
rounded_up n = sum_by (λ x. (x * suc n + 9999) / 10000)

shares-negsuc :
    (n : ℕ) (amounts : List ℕ) → shares (negsuc n) amounts ≡ pos 0 -ℤ pos (rounded_up n amounts)
unfolding floor_share
shares-negsuc n [] = omega int_laws
shares-negsuc n (x ∷ amounts) = rw (shares-negsuc n amounts) (omega int_laws)

up_sign : (n x : ℕ) → (((x * suc n + 9999) / 10000) ≡ 0) ↔ (x ≡ 0)
up_sign n zero = (λ _. refl, λ _. omega arith)
up_sign n (suc k) = (λ h. absurd (omega arith), λ h. absurd (omega arith))

rounded_up-zero : (n : ℕ) (amounts : List ℕ) → (rounded_up n amounts ≡ 0) ↔ (sum amounts ≡ 0)
rounded_up-zero n [] = (λ _. refl, λ _. refl)
rounded_up-zero n (x ∷ amounts) =
    let (up, down) = up_sign n x in
    let (ups, downs) = rounded_up-zero n amounts in
    (
      λ h. let a = up (omega arith) in let b = ups (omega arith) in omega arith,
      λ h. let a = down (omega arith) in let b = downs (omega arith) in omega arith,
    )

negative_share : (n : ℕ) → ltb_ℤ (pos 0 -ℤ pos n) (pos 0) ≡ ltb 0 n
unfolding ◌-ℤ◌
negative_share n = ground arith

shares_sign :
    (bps : ℤ) (amounts : List ℕ)
    → (ltb_ℤ (shares bps amounts) (pos 0) ≡ false) ↔ ((pos 0 ≤ℤ bps) ⊎ (sum amounts ≡ 0))
shares_sign (pos n) amounts =
    (λ _. inl (omega arith), λ _. rw (shares-pos n amounts) (never (commission_of_parts n amounts)))
  where
    never : (k : ℕ) → ltb_ℤ (pos k) (pos 0) ≡ false
    never k = ground arith
shares_sign (negsuc n) amounts = (
  λ h. inr (
      (rounded_up-zero n amounts).0
        (not_more _ (sym (negative_share _) ∙ rw (shares-negsuc n amounts) at h))),
  λ e. rw (shares-negsuc n amounts, negative_share _, none_up e) refl,
)
  where
    not_more : (k : ℕ) → ltb 0 k ≡ false → k ≡ 0
    not_more k h = ground arith

    none_up : (pos 0 ≤ℤ negsuc n) ⊎ (sum amounts ≡ 0) → rounded_up n amounts ≡ 0
    none_up (inl h) = absurd (omega arith)
    none_up (inr h) = (rounded_up-zero n amounts).1 h

-- A basket is built exactly when the milestone amounts sum to the total and the rate is not negative,
-- or else there is nothing to share.
pub build_split_iff :
    (total : ℕ) (bps : ℤ) (amounts : List ℕ)
    → (is_ok (build_split total bps amounts) ≡ true)
      ↔ ((sum amounts ≡ total) × ((pos 0 ≤ℤ bps) ⊎ (sum amounts ≡ 0)))
build_split_iff total bps amounts = (
  λ h. go (build_split total bps amounts) refl h,
  λ (e, fine). rw (build_split-eq total bps amounts e, (shares_sign bps amounts).1 fine) refl,
)
  where
    go :
        (r : Result BasketError (List BasketItem))
        → build_split total bps amounts ≡ r
        → is_ok r ≡ true
        → (sum amounts ≡ total) × ((pos 0 ≤ℤ bps) ⊎ (sum amounts ≡ 0))
    go (ok items) e h =
        let (same, fine, _) = build_split-inv total bps amounts e in
        (same, (shares_sign bps amounts).0 fine)
    go (err _) e h = cc

prices_lem :
    (bps : ℤ) (amounts : List ℕ)
    → map (λ (i : BasketItem). i.price_minor) (map (basket_item bps) amounts) ≡ amounts
unfolding basket_item
prices_lem bps [] = refl
prices_lem bps (x ∷ amounts) = ap (λ l. x ∷ l) (prices_lem bps amounts)

-- The prices of a basket are the milestone amounts, which sum to the total, and the platform's
-- share that the provider infers, the total less the sub-merchant prices, is exactly the sum of the
-- commissions of the amounts, each rounded down: no remainder is moved to the first item, as the
-- comment on the function says, so it may be less than the commission of the total. It is not
-- negative.
pub build_split_sound :
    (total : ℕ) (bps : ℤ) (amounts : List ℕ) {items : List BasketItem}
    → build_split total bps amounts ≡ ok items
    → (map (λ (i : BasketItem). i.price_minor) items ≡ amounts)
      × (sum amounts ≡ total)
      × (pos total -ℤ net_sum_from (pos 0) items ≡ shares bps amounts)
      × (pos 0 ≤ℤ shares bps amounts)
build_split_sound total bps amounts {items} h =
    let (e, fine, same) = build_split-inv total bps amounts h in
    rw (← same)
      (prices_lem bps amounts, e, rw (net_sum_lem bps amounts, ← e) (omega int_laws), ground arith)

-- Each item pays the coach exactly what the ledger posts for the release of that milestone.
pub basket_item-split :
    (amount bps : ℕ) {s : Split}
    → split_amount (pos amount) (pos bps) ≡ ok s
    → basket_item (pos bps) amount
      ≡ record { price_minor = s.gross_minor; sub_merchant_price_minor = pos s.net_to_coach_minor }
basket_item-split amount bps h =
    let (_, small, e) = split_amount-inv amount bps h in
    rw e (
      unfold basket_item floor_share in
      ap (λ z. record { price_minor = amount; sub_merchant_price_minor = z })
        (omega (int_laws, commission_half amount bps small)))
