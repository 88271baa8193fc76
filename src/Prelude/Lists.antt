-- ===== src/Prelude/Lists.antt =====
-- Lists searched and counted by Boolean tests, and measured by native numbers.
use Prim.Native.Nat.{ℕ, zero, suc, ◌≤◌}
use mathlib.Core.Path.{◌≡◌, refl, subst}
use mathlib.Core.Logic.{inl, inr}
use mathlib.Core.Bool.{Bool, true, false, ◌&&◌, ◌||◌}
use mathlib.Core.List.{List, [], ◌∷◌}
use mathlib.Core.Option.{Option, none, some}
use native.Mathlib.Omega.{arith}
use guestbook.Prelude.Tests.{if◌then◌else◌, Bool-cases}

module _ {ℓ} {A : Type ℓ} where
  abbrev pub length : List A → ℕ
  length [] = 0
  length (x ∷ xs) = suc (length xs)

  abbrev pub take : ℕ → List A → List A
  take zero xs = []
  take (suc n) [] = []
  take (suc n) (x ∷ xs) = x ∷ take n xs

  -- The first row that passes the test.
  unfoldable pub find_first : (A → Bool) → List A → Option A
  find_first p [] = none
  find_first p (x ∷ xs) = if p x then some x else find_first p xs

  unfoldable pub select : (A → Bool) → List A → List A
  select p [] = []
  select p (x ∷ xs) = let rest = select p xs in if p x then x ∷ rest else rest

  unfoldable pub count_if : (A → Bool) → List A → ℕ
  count_if p [] = 0
  count_if p (x ∷ xs) = let rest = count_if p xs in if p x then suc rest else rest

  unfoldable pub any : (A → Bool) → List A → Bool
  any p [] = false
  any p (x ∷ xs) = p x || any p xs

  unfoldable pub all : (A → Bool) → List A → Bool
  all p [] = true
  all p (x ∷ xs) = p x && all p xs

  -- Each row that passes the test is changed.
  unfoldable pub update_if : (A → Bool) → (A → A) → List A → List A
  update_if p f [] = []
  update_if p f (x ∷ xs) = (if p x then f x else x) ∷ update_if p f xs

module _ {ℓ κ} {A : Type ℓ} where
  abbrev pub All : (A → Type κ) → List A → Type κ
  All P [] = Unit
  All P (x ∷ xs) = P x × All P xs

module _ {ℓ} {A : Type ℓ} where
  -- A change of rows that the search does not see, before and after, leaves the search alone.
  pub find_first-update_if_ne :
      (p q : A → Bool) (f : A → A) (xs : List A)
      → ((x : A) → q x ≡ true → (p x ≡ false) × (p (f x) ≡ false))
      → find_first p (update_if q f xs) ≡ find_first p xs
  unfolding find_first update_if
  find_first-update_if_ne p q f [] k = refl
  find_first-update_if_ne p q f (x ∷ xs) k = ground (arith, k x, find_first-update_if_ne p q f xs k)

  -- What a search finds passes the test.
  pub find_first-passes :
      (p : A → Bool) (xs : List A) (x : A) → find_first p xs ≡ some x → p x ≡ true
  unfolding find_first
  find_first-passes p [] x h = cc
  find_first-passes p (y ∷ xs) x h = ground (arith, find_first-passes p xs x)

module _ {ℓ κ} {A : Type ℓ} where
  -- What a search finds has what every row has.
  pub All-find_first :
      (P : A → Type κ) (p : A → Bool) (xs : List A) (x : A)
      → All P xs
      → find_first p xs ≡ some x
      → P x
  unfolding find_first
  All-find_first P p [] x h e = cc
  All-find_first P p (y ∷ xs) x h e = elim (Bool-cases (p y)) [
    | inl pass ↦ let same : y ≡ x = ground (arith, pass) in subst P same h.0
    | inr fail ↦ All-find_first P p xs x h.1 (ground (arith, fail))
  ]

  pub All-select : (P : A → Type κ) (p : A → Bool) (xs : List A) → All P xs → All P (select p xs)
  unfolding select
  All-select P p [] h = tt
  All-select P p (x ∷ xs) h = elim (Bool-cases (p x)) [
    | inl pass ↦ rw pass (h.0, All-select P p xs h.1)
    | inr fail ↦ rw fail (All-select P p xs h.1)
  ]

  -- A property of every row carries over, row by row.
  pub All-imp {μ} :
      (P : A → Type κ) (Q : A → Type μ) (xs : List A) → ((x : A) → P x → Q x) → All P xs → All Q xs
  All-imp P Q [] k h = tt
  All-imp P Q (x ∷ xs) k h = (k x h.0, All-imp P Q xs k h.1)

module _ {ℓ} {A : Type ℓ} where
  pub any_of_find_first :
      (p q : A → Bool) (xs : List A) (x : A)
      → find_first p xs ≡ some x
      → q x ≡ true
      → any q xs ≡ true
  unfolding find_first any
  any_of_find_first p q [] x e h = cc
  any_of_find_first p q (y ∷ xs) x e h = ground (arith, any_of_find_first p q xs x)

  -- A change that the test does not see leaves the count alone.
  pub count_if-update_if :
      (p q : A → Bool) (f : A → A) (xs : List A)
      → ((x : A) → p (f x) ≡ p x)
      → count_if p (update_if q f xs) ≡ count_if p xs
  unfolding count_if update_if
  count_if-update_if p q f [] k = refl
  count_if-update_if p q f (x ∷ xs) k = ground (arith, k x, count_if-update_if p q f xs k)

module _ {ℓ} {A : Type ℓ} where
  pub All-none : (q : A → Bool) (xs : List A) → any q xs ≡ false → All (λ x. q x ≡ false) xs
  unfolding any
  All-none q [] h = tt
  All-none q (x ∷ xs) h = (ground arith, All-none q xs (ground arith))

module _ {ℓ κ μ ν} {A : Type ℓ} where
  pub All-zip :
      (P : A → Type κ) (Q : A → Type μ) (R : A → Type ν) (xs : List A)
      → ((x : A) → P x → Q x → R x)
      → All P xs
      → All Q xs
      → All R xs
  All-zip P Q R [] k h g = tt
  All-zip P Q R (x ∷ xs) k h g = (k x h.0 g.0, All-zip P Q R xs k h.1 g.1)

module _ {ℓ} {A : Type ℓ} where
  pub All-update_if {κ μ} :
      (P : A → Type κ) (Q : A → Type μ) (p : A → Bool) (f : A → A) (xs : List A)
      → ((x : A) → p x ≡ true → P x → Q (f x))
      → ((x : A) → p x ≡ false → P x → Q x)
      → All P xs
      → All Q (update_if p f xs)
  unfolding update_if
  All-update_if P Q p f [] k l h = tt
  All-update_if P Q p f (x ∷ xs) k l h = elim (Bool-cases (p x)) [
    | inl pass ↦ rw pass (k x pass h.0, All-update_if P Q p f xs k l h.1)
    | inr fail ↦ rw fail (l x fail h.0, All-update_if P Q p f xs k l h.1)
  ]

  -- A change that the test does not see.
  pub any-update_if :
      (q p : A → Bool) (f : A → A) (xs : List A)
      → ((x : A) → q (f x) ≡ q x)
      → any q (update_if p f xs) ≡ any q xs
  unfolding any update_if
  any-update_if q p f [] k = refl
  any-update_if q p f (x ∷ xs) k = ground (arith, k x, any-update_if q p f xs k)

  pub count_if-select-le : (q p : A → Bool) (xs : List A) → count_if q (select p xs) ≤ count_if q xs
  unfolding count_if select
  count_if-select-le q p [] = omega arith
  count_if-select-le q p (x ∷ xs) = ground (arith, count_if-select-le q p xs)
