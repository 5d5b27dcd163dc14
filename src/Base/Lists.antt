-- ===== src/Base/Lists.antt =====
-- Lists measured and searched as JavaScript arrays are: `length`, `find`, `filter`, `some`, `every`.
use Prim.Native.Nat.{ℕ, zero, suc, ◌+◌}
use mathlib.Core.Path.{◌≡◌, refl, sym, ap, ◌∙◌}
use mathlib.Core.Logic.{inl, inr}
use mathlib.Core.Bool.{Bool, true, false, ◌&&◌, ◌||◌}
use mathlib.Core.Option.{Option, none, some}
use mathlib.Core.List.{List, [], ◌∷◌, ◌++◌, map}
use native.Mathlib.Omega.{arith}
use kaktus.Base.Tests.{if◌then◌else◌, Bool-cases}

module _ {ℓ} {A : Type ℓ} where
  abbrev pub length : List A → ℕ
  length [] = 0
  length (_ ∷ xs) = suc (length xs)

  -- `xs[i]`
  abbrev pub get_elem? : List A → ℕ → Option A
  get_elem? [] _ = none
  get_elem? (x ∷ xs) zero = some x
  get_elem? (x ∷ xs) (suc i) = get_elem? xs i

  abbrev pub get_or : List A → ℕ → A → A
  get_or [] _ d = d
  get_or (x ∷ xs) zero _ = x
  get_or (x ∷ xs) (suc i) d = get_or xs i d

  -- `LIMIT n`
  abbrev pub take : ℕ → List A → List A
  take zero xs = []
  take (suc n) [] = []
  take (suc n) (x ∷ xs) = x ∷ take n xs

  -- `xs.find(p)`
  abbrev pub find : (A → Bool) → List A → Option A
  find p [] = none
  find p (x ∷ xs) = if p x then some x else find p xs

  -- `xs.filter(p)`
  abbrev pub select : (A → Bool) → List A → List A
  select p [] = []
  select p (x ∷ xs) = let rest = select p xs in if p x then x ∷ rest else rest

  -- `xs.some(p)`
  abbrev pub any : (A → Bool) → List A → Bool
  any p [] = false
  any p (x ∷ xs) = p x || any p xs

  -- `xs.every(p)`
  abbrev pub every : (A → Bool) → List A → Bool
  every p [] = true
  every p (x ∷ xs) = p x && every p xs

  -- An SQL `UPDATE … SET f WHERE p`.
  abbrev pub update_where : (A → Bool) → (A → A) → List A → List A
  update_where p f [] = []
  update_where p f (x ∷ xs) = (if p x then f x else x) ∷ update_where p f xs

  abbrev pub All {κ} : (A → Type κ) → List A → Type κ
  All P [] = Unit
  All P (x ∷ xs) = P x × All P xs

  pub length-append : (xs ys : List A) → length (xs ++ ys) ≡ length xs + length ys
  length-append [] ys = omega arith
  length-append (x ∷ xs) ys = omega (arith, length-append xs ys)

  pub All-append {κ} : (P : A → Type κ) (xs ys : List A) → All P xs → All P ys → All P (xs ++ ys)
  All-append P [] ys hx hy = hy
  All-append P (x ∷ xs) ys hx hy = (hx.0, All-append P xs ys hx.1 hy)

  pub All-select {κ} :
      (P : A → Type κ) (p : A → Bool) (xs : List A) → All P xs → All P (select p xs)
  All-select P p [] h = tt
  All-select P p (x ∷ xs) h =
      elim (p x) as (λ b. All P (if b then x ∷ select p xs else select p xs)) [
        | true ↦ (h.0, All-select P p xs h.1)
        | false ↦ All-select P p xs h.1
      ]

  pub All-of_All {κ} : (P : A → Type κ) → ((x : A) → P x) → (xs : List A) → All P xs
  All-of_All P h [] = tt
  All-of_All P h (x ∷ xs) = (h x, All-of_All P h xs)

  pub All-imp {κ τ} :
      (P : A → Type κ) (Q : A → Type τ)
      → ((x : A) → P x → Q x)
      → (xs : List A) → All P xs
      → All Q xs
  All-imp P Q f [] h = tt
  All-imp P Q f (x ∷ xs) h = (f x h.0, All-imp P Q f xs h.1)

  pub All-imp₂ {κ τ υ} :
      (xs : List A) (P : A → Type κ) (Q : A → Type τ) (R : A → Type υ)
      → ((x : A) → P x → Q x → R x)
      → All P xs
      → All Q xs
      → All R xs
  All-imp₂ [] P Q R f h k = tt
  All-imp₂ (x ∷ xs) P Q R f h k = (f x h.0 k.0, All-imp₂ xs P Q R f h.1 k.1)

  pub any-append : (p : A → Bool) (xs ys : List A) → any p (xs ++ ys) ≡ any p xs || any p ys
  any-append p [] ys = refl
  any-append p (x ∷ xs) ys =
      rw (any-append p xs ys)
        (elim (p x) as (λ b. b || (any p xs || any p ys) ≡ (b || any p xs) || any p ys) [
          | true ↦ refl
          | false ↦ refl
        ])

  pub any-ext : (p q : A → Bool) → ((x : A) → p x ≡ q x) → (xs : List A) → any p xs ≡ any q xs
  any-ext p q h xs = λ i. any (λ x. h x i) xs

  pub any-select : (p q : A → Bool) (xs : List A) → any p (select q xs) ≡ any (λ x. q x && p x) xs
  any-select p q [] = refl
  any-select p q (x ∷ xs) = elim (Bool-cases (q x)) [
    | inl here ↦ rw (here, any-select p q xs) refl
    | inr there ↦ rw (there, any-select p q xs) refl
  ]

  pub any-All : (p : A → Bool) (xs : List A) → any p xs ≡ false → All (λ x. p x ≡ false) xs
  any-All p [] h = tt
  any-All p (x ∷ xs) h = elim (Bool-cases (p x)) [
    | inl hit ↦ cc (rw hit at h)
    | inr miss ↦ (miss, any-All p xs (rw miss at h))
  ]

  pub All-any : (p : A → Bool) (xs : List A) → All (λ x. p x ≡ false) xs → any p xs ≡ false
  All-any p [] h = refl
  All-any p (x ∷ xs) (miss, rest) = rw miss (All-any p xs rest)

  pub every-All : (p : A → Bool) (xs : List A) → every p xs ≡ true → All (λ x. p x ≡ true) xs
  every-All p [] h = tt
  every-All p (x ∷ xs) h = elim (Bool-cases (p x)) [
    | inl hit ↦ (hit, every-All p xs (rw hit at h))
    | inr miss ↦ cc (rw miss at h)
  ]

  pub All-of_none :
      (p : A → Bool) (xs : List A) → length (select p xs) ≡ 0 → All (λ x. p x ≡ false) xs
  All-of_none p [] h = tt
  All-of_none p (x ∷ xs) h = elim (Bool-cases (p x)) [
    | inl hit ↦ absurd (omega (arith, rw hit at h))
    | inr miss ↦ (miss, All-of_none p xs (rw miss at h))
  ]

  pub none-of_All :
      (p : A → Bool) (xs : List A) → All (λ x. p x ≡ false) xs → length (select p xs) ≡ 0
  none-of_All p [] h = refl
  none-of_All p (x ∷ xs) (miss, rest) = rw miss (none-of_All p xs rest)

  -- What is found after an update that leaves the test as it was.
  pub find-update_where :
      (q : A → Bool) (f : A → A) (p : A → Bool) (xs : List A) {a : A}
      → ((x : A) → p (f x) ≡ p x)
      → q a ≡ true
      → find p xs ≡ some a
      → find p (update_where q f xs) ≡ some (f a)
  find-update_where q f p [] same hit h = cc h
  find-update_where q f p (x ∷ xs) {a} same hit h = elim (Bool-cases (p x)) [
    | inl here ↦
        let e : x ≡ a = cc (rw here at h) in
        let changes : q x ≡ true = ap q e ∙ hit in
        rw (changes, same x, here) (ap (λ y. some (f y)) e)
    | inr there ↦
        let rest = find-update_where q f p xs same hit (rw there at h) in
        elim (Bool-cases (q x)) [
          | inl changes ↦ rw (changes, same x, there) rest
          | inr keeps ↦ rw (keeps, there) rest
        ]
  ]

  -- What is found is there.
  pub any-find : (p : A → Bool) (xs : List A) {a : A} → find p xs ≡ some a → any p xs ≡ true
  any-find p [] h = cc h
  any-find p (x ∷ xs) h = elim (Bool-cases (p x)) [
    | inl here ↦ rw here refl
    | inr there ↦ rw there (any-find p xs (rw there at h))
  ]

  pub find-holds : (p : A → Bool) (xs : List A) {a : A} → find p xs ≡ some a → p a ≡ true
  find-holds p [] h = cc h
  find-holds p (x ∷ xs) {a} h = elim (Bool-cases (p x)) [
    | inl here ↦ let e : x ≡ a = cc (rw here at h) in sym (ap p e) ∙ here
    | inr there ↦ find-holds p xs (rw there at h)
  ]

  pub find-All {κ} :
      (P : A → Type κ) (p : A → Bool) (xs : List A) {x : A}
      → All P xs
      → find p xs ≡ some x
      → P x × (p x ≡ true)
  find-All P p [] h e = cc
  find-All P p (y ∷ xs) h e = elim (Bool-cases (p y)) [
    | inl hit ↦ ground (arith, h.0)
    | inr miss ↦ find-All P p xs h.1 (rw miss at e)
  ]

module _ {ℓ κ} {A : Type ℓ} {B : Type κ} where
  pub length-map : (f : A → B) (xs : List A) → length (map f xs) ≡ length xs
  length-map f [] = refl
  length-map f (x ∷ xs) = ap suc (length-map f xs)
