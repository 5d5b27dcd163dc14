-- ===== src/Services/Disputes/Conserved.antt =====
-- What the split settlement takes out of the escrow.
use kaktus.Base.{
  ℕ, ◌+◌, ◌-◌, Bool, true, false, some, List, [], ◌∷◌, ◌≡◌, refl, sym, ap, ◌∙◌, arith, ok, ltb, leb,
  ◌==◌,
}
use mathlib.Core.Path.{subst}
use kaktus.Base.Int.{ℤ, ◌-ℤ◌, int_laws}
use kaktus.Payments.Ledger.{
  release_milestone, update_milestone, post_milestone_release, refund_from_escrow,
  engagement_escrow_balance_minor,
}
use kaktus.Payments.Ledger.Flow.{update_milestone-inv}
use kaktus.Payments.Ledger.Escrow.{only, release-balance, refund-balance}
use kaktus.Database.{Milestone, Store, Tx, ◌>>=◌, pure, >>=-ok}
use kaktus.Services.Offers.Money.{total_of}
use kaktus.Services.Disputes.{
  SplitRequest, release_part, refund_part, settle_milestone, settle_milestones,
}

-- A transaction that, where it goes through, lowers the escrow of one engagement by an amount, and
-- no other escrow.
abbrev pub Takes : {A : Type 0} → ℕ → ℕ → Tx A → Type 0
Takes {A} id n m =
    (s : Store) (r : A × Store)
    → m s ≡ ok r
    → (e : ℕ)
    → engagement_escrow_balance_minor r.1 e
      ≡ engagement_escrow_balance_minor s e -ℤ only (id == e) n

only_twice : (c : Bool) (a b : ℕ) (x : ℤ) → x -ℤ only c a -ℤ only c b ≡ x -ℤ only c (a + b)
only_twice true a b x = omega int_laws
only_twice false a b x = omega int_laws

add_takings :
    (c : Bool) (a b : ℕ) (x y z : ℤ)
    → y ≡ x -ℤ only c a
    → z ≡ y -ℤ only c b
    → z ≡ x -ℤ only c (a + b)
add_takings c a b x y z h k = k ∙ ap (λ (w : ℤ). w -ℤ only c b) h ∙ only_twice c a b x

no_takings : (c : Bool) (x : ℤ) → x ≡ x -ℤ only c 0
no_takings true x = omega int_laws
no_takings false x = omega int_laws

module _ (id : ℕ) where
  bind-Takes :
      {A B : Type 0} (a b : ℕ) (m : Tx A) (f : A → Tx B)
      → Takes id a m
      → ((x : A) → Takes id b (f x))
      → Takes id (a + b) (m >>= f)
  bind-Takes a b m f km kf s r h e =
      let (x, t, first, second) = >>=-ok m f s h in
      add_takings (id == e) a b _ _ _ (km s (x, t) first e) (kf x t r second e)

  pure-Takes : {A : Type 0} (a : A) → Takes id 0 (pure a)
  pure-Takes a s r h e =
      let same : s ≡ r.1 = cc h in
      subst
        (λ t.
          engagement_escrow_balance_minor t e
          ≡ engagement_escrow_balance_minor s e -ℤ only (id == e) 0)
        same (no_takings (id == e) _)

  update_milestone-Takes :
      (row : ℕ) (change : Milestone → Milestone) → Takes id 0 (update_milestone row change)
  unfolding engagement_escrow_balance_minor
  update_milestone-Takes row change s (tt, t) h e =
      subst
        (λ u.
          engagement_escrow_balance_minor u e
          ≡ engagement_escrow_balance_minor s e -ℤ only (id == e) 0)
        (sym (update_milestone-inv row change s h)) (no_takings (id == e) _)

  Takes-eq : {A : Type 0} {m : Tx A} (a b : ℕ) → a ≡ b → Takes id a m → Takes id b m
  Takes-eq {A} {m} a b same k = subst (λ n. Takes id n m) same k

module _ (req : SplitRequest) where
  abbrev engagement : ℕ
  engagement = req.engagement_id

  release_part-Takes : (m : Milestone) (n : ℕ) → Takes engagement n (release_part req m n)
  unfolding release_part release_milestone
  release_part-Takes m n = Takes-eq engagement (n + 0 + 0) n (omega arith) (
      bind-Takes engagement (n + 0) 0 _ _
        (Takes-eq engagement (n + (0 + 0)) (n + 0) (omega arith) (
          bind-Takes engagement n (0 + 0) (post_milestone_release _) _
            (λ s r h e. (release-balance _ s h).1 e)
            (λ split.
              bind-Takes engagement 0 0 _ _ (update_milestone-Takes engagement _ _)
                (λ _. pure-Takes engagement split))))
        (λ _. pure-Takes engagement tt))

  refund_part-Takes : (m : Milestone) (n : ℕ) → Takes engagement n (refund_part req m n)
  unfolding refund_part
  refund_part-Takes m n = Takes-eq engagement (n + 0) n (omega arith) (
      bind-Takes engagement n 0 (refund_from_escrow _ _ _ _) _
        (λ s r h e. refund-balance engagement (some m.id) n req.now s h e)
        (λ _. pure-Takes engagement tt))

  settle_milestone-Takes :
      (remaining : ℕ) (m : Milestone) (whole part : Bool)
      → whole ≡ leb m.amount_minor remaining
      → part ≡ ltb 0 remaining
      → Takes engagement m.amount_minor (settle_milestone req remaining m whole part)
  unfolding settle_milestone
  settle_milestone-Takes remaining m true part w p =
      Takes-eq engagement (m.amount_minor + 0) m.amount_minor (omega arith) (
        bind-Takes engagement m.amount_minor 0 _ _ (release_part-Takes m _)
          (λ _. pure-Takes engagement _))
  settle_milestone-Takes remaining m false true w p =
      Takes-eq engagement (remaining + (m.amount_minor - remaining + 0)) m.amount_minor
        (ground arith)
        (bind-Takes engagement remaining _ _ _ (release_part-Takes m remaining) (λ _.
          bind-Takes engagement (m.amount_minor - remaining) 0 _ _ (refund_part-Takes m _)
            (λ _. pure-Takes engagement 0)))
  settle_milestone-Takes remaining m false false w p =
      Takes-eq engagement (m.amount_minor + 0) m.amount_minor (omega arith) (
        bind-Takes engagement m.amount_minor 0 _ _ (refund_part-Takes m _)
          (λ _. pure-Takes engagement _))

  settle_milestones-Takes :
      (remaining : ℕ) (ms : List Milestone)
      → Takes engagement (total_of ms) (settle_milestones req remaining ms)
  unfolding settle_milestones
  settle_milestones-Takes remaining [] = pure-Takes engagement tt
  settle_milestones-Takes remaining (m ∷ ms) =
      bind-Takes engagement m.amount_minor (total_of ms) (settle_milestone req remaining m _ _) _
        (settle_milestone-Takes remaining m _ _ refl refl) (λ left. settle_milestones-Takes left ms)

-- The rounds of the split settlement, where they go through, take exactly the amounts of the frozen
-- milestones out of the escrow of the engagement, however much of it the coach is to have, and
-- nothing out of any other.
pub settle_milestones-escrow :
    (req : SplitRequest) (share : ℕ) (frozen : List Milestone) (s t : Store)
    → settle_milestones req share frozen s ≡ ok (tt, t)
    → (e : ℕ)
    → engagement_escrow_balance_minor t e
      ≡ engagement_escrow_balance_minor s e -ℤ only (req.engagement_id == e) (total_of frozen)
settle_milestones-escrow req share frozen s t h e =
    settle_milestones-Takes req share frozen s (tt, t) h e
