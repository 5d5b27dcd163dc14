-- ===== src/Payments/Tests.antt =====
-- Amounts as the tests of the repository use them, and each theorem at an input that meets its
-- hypotheses.
use kaktus.Base.{
  ◌⊎◌, ℕ, ◌+◌, ◌*◌, ◌/◌, ◌≤◌, ◌<◌, ◌≡◌, ◌↔◌, ◌&&◌, refl, true, some, none, List, [], ◌∷◌, map, ok,
  err, is_ok, length, All, ◌==◌,
}
use kaktus.Base.Int.{negsuc, ◌≤ℤ◌, pos, ◌≤ℤ◌, ◌+ℤ◌, ◌-ℤ◌}
use kaktus.Base.Sums.{sum}
use kaktus.Payments.Split.{Split, split_amount, commission, split_into_milestones, share, bad_gross}
use kaktus.Payments.Split.Commission.{
  split_amount_sound, split_amount_iff, commission_of_parts, commission_of_parts_bounds,
}
use kaktus.Payments.Split.Parts.{Within, Falls, split_into_milestones_sound}
use kaktus.Payments.Basket.{
  BasketItem, basket_item, floor_share, shares, build_split, net_sum_from, build_split_iff,
  build_split_sound, basket_item-split,
}
use kaktus.Database.{Store, is_debit, is_credit, LedgerEntry}
use kaktus.Database.Samples.{empty_store}
use kaktus.Payments.Ledger.{
  post_group, post_escrow_funding, post_milestone_release, ReleaseArgs, release_entries,
  engagement_escrow_balance_minor, coach_available_balance_minor, flow,
}
use kaktus.Payments.Ledger.Flow.{posted, release_refs}
use kaktus.Payments.Ledger.Balance.{post_group-IsBalanced}
use kaktus.Payments.Ledger.Escrow.{only, funding_entries, release-balance}

abbrev month : Split
month = record { gross_minor = 100001; commission_minor = 18000; net_to_coach_minor = 82001 }

month_split : split_amount (pos 100001) (pos 1800) ≡ ok month
unfolding split_amount commission
month_split = refl

zero_refused : split_amount (pos 0) (pos 1800) ≡ err bad_gross
unfolding split_amount
zero_refused = refl

split_amount_sound_example :
    (pos 100001 ≡ pos 100001)
    × (18000 + 82001 ≡ 100001)
    × (0 < 82001)
    × (18000 ≤ 82001)
    × (18000 * 10000 ≤ 100001 * 1800)
    × (100001 * 1800 < (18000 + 1) * 10000)
split_amount_sound_example = split_amount_sound (pos 100001) (pos 1800) month_split

split_amount_iff_example :
    (is_ok (split_amount (pos 5) (pos 5001)) ≡ true)
    ↔ ((pos 1 ≤ℤ pos 5) × (pos 0 ≤ℤ pos 5001) × (pos 5001 ≤ℤ pos 5000))
split_amount_iff_example = split_amount_iff (pos 5) (pos 5001)

abbrev quarters : List ℕ
quarters = 25001 ∷ 25000 ∷ 25000 ∷ 25000 ∷ []

quarters_split : split_into_milestones 100001 4 ≡ ok quarters
unfolding split_into_milestones share
quarters_split = refl

split_into_milestones_sound_example :
    (length quarters ≡ 4)
    × (sum quarters ≡ 100001)
    × All (Within (100001 / 4)) quarters
    × Falls quarters
split_into_milestones_sound_example = split_into_milestones_sound 100001 4 quarters_split

commission_of_parts_bounds_example :
    (commission_of_parts 1800 quarters ≤ commission (sum quarters) 1800)
    × (commission (sum quarters) 1800 ≤ commission_of_parts 1800 quarters + 3)
commission_of_parts_bounds_example =
    commission_of_parts_bounds 1800 25001 (25000 ∷ 25000 ∷ 25000 ∷ [])

abbrev basket : List BasketItem
basket = unfold basket_item in map (basket_item (pos 1800)) quarters

basket_built : build_split 100001 (pos 1800) quarters ≡ ok basket
unfolding build_split basket_item floor_share commission ◌+ℤ◌ ◌-ℤ◌
basket_built = refl

build_split_sound_example :
    (map (λ (i : BasketItem). i.price_minor) basket ≡ quarters)
    × (sum quarters ≡ 100001)
    × (pos 100001 -ℤ net_sum_from (pos 0) basket ≡ shares (pos 1800) quarters)
    × (pos 0 ≤ℤ shares (pos 1800) quarters)
build_split_sound_example = build_split_sound 100001 (pos 1800) quarters basket_built

-- The commission of 6 is 1 at that rate, but neither half of it has one.
no_remainder :
    build_split 6 (pos 1800) (3 ∷ 3 ∷ [])
    ≡ ok (
        record { price_minor = 3; sub_merchant_price_minor = pos 3 }
        ∷ record { price_minor = 3; sub_merchant_price_minor = pos 3 }
        ∷ [])
unfolding build_split basket_item floor_share commission ◌+ℤ◌ ◌-ℤ◌
no_remainder = refl

abbrev one_month : List ℕ
one_month = 1000 ∷ []

-- A rate of -100 basis points: the basket is refused.
build_split_iff_example :
    (is_ok (build_split 1000 (negsuc 99) one_month) ≡ true)
    ↔ ((sum one_month ≡ 1000) × ((pos 0 ≤ℤ negsuc 99) ⊎ (sum one_month ≡ 0)))
build_split_iff_example = build_split_iff 1000 (negsuc 99) one_month

basket_item-split_example :
    basket_item (pos 1800) 100001
    ≡ record { price_minor = 100001; sub_merchant_price_minor = pos 82001 }
basket_item-split_example = basket_item-split 100001 1800 month_split

abbrev release : ReleaseArgs
release = record {
  engagement_id = 5;
  milestone_id = 9;
  coach_profile_id = 7;
  amount_minor = 100001;
  commission_bps = 1800;
}

abbrev released : Store
released =
    unfold release_entries in posted empty_store (release_entries month) (release_refs release)

release_goes : post_milestone_release release empty_store ≡ ok (month, released)
unfolding post_milestone_release split_amount commission post_group release_entries ◌+ℤ◌ ◌-ℤ◌
release_goes = refl

release-balance_example :
    (18000 + 82001 ≡ 100001)
    × ((e : ℕ)
        → engagement_escrow_balance_minor released e
          ≡ engagement_escrow_balance_minor empty_store e -ℤ only (5 == e) 100001)
    × ((c : ℕ)
        → coach_available_balance_minor released c
          ≡ coach_available_balance_minor empty_store c +ℤ only (7 == c) 82001)
release-balance_example = release-balance release empty_store release_goes

abbrev funded : Store
funded = posted empty_store (funding_entries 400000) (record (release_refs release) {
  milestone_id = none;
  coach_profile_id = none;
  payment_id = some 3;
})

funding_goes : post_escrow_funding 5 3 400000 empty_store ≡ ok (100, funded)
unfolding post_escrow_funding post_group ◌+ℤ◌ ◌-ℤ◌
funding_goes = refl

posting :
    post_group
      (funding_entries 400000)
      (record (release_refs release) {
        milestone_id = none;
        coach_profile_id = none;
        payment_id = some 3;
      })
      empty_store
    ≡ ok (100, funded)
unfolding post_group ◌+ℤ◌ ◌-ℤ◌
posting = refl

post_group-IsBalanced_example :
    flow
      (λ (e : LedgerEntry). (e.entry_group_id == 100) && is_debit e.direction)
      funded.ledger_entries
    ≡ flow
        (λ (e : LedgerEntry). (e.entry_group_id == 100) && is_credit e.direction)
        funded.ledger_entries
post_group-IsBalanced_example =
    post_group-IsBalanced (funding_entries 400000)
      (record (release_refs release) {
        milestone_id = none;
        coach_profile_id = none;
        payment_id = some 3;
      })
      empty_store posting (λ group. refl) 100
