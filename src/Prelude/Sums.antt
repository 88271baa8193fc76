-- ===== src/Prelude/Sums.antt =====
-- Sums over lists, and lists whose rows have different keys.
use Prim.Native.Nat.{ℕ, ◌≤◌}
use mathlib.Core.Path.{◌≡◌, refl, sym, subst, ap, ◌∙◌}
use mathlib.Core.Logic.{inl, inr}
use mathlib.Core.Bool.{Bool, true, false}
use mathlib.Core.Option.{none, some}
use mathlib.Core.List.{List, [], ◌∷◌}
use native.Mathlib.Omega.{arith}
use guestbook.Prelude.Tests.{◌==◌, Bool-cases}
use guestbook.Prelude.Lists.{
  All, count_if, any, find_first, update_if, any_of_find_first, any-update_if,
}
use guestbook.Prelude.Int.{ℤ, pos, ◌+ℤ◌, int_laws}

unfoldable pub sum_of : {A : Type 0} → (A → ℤ) → List A → ℤ
sum_of g [] = pos 0
sum_of g (x ∷ xs) = g x +ℤ sum_of g xs

-- No two rows have one key.
abbrev pub Distinct : {A : Type 0} → (A → ℕ) → List A → Type 0
Distinct key [] = Unit
Distinct key (x ∷ xs) = (any (λ y. key y == key x) xs ≡ false) × Distinct key xs

swap_sums : (a b s : ℤ) → (a +ℤ s) +ℤ b ≡ (b +ℤ s) +ℤ a
swap_sums a b s = grind int_laws

carry_sums : (x a b c d : ℤ) → a +ℤ b ≡ c +ℤ d → (x +ℤ a) +ℤ b ≡ (x +ℤ c) +ℤ d
carry_sums x a b c d h = grind int_laws

module _ {A : Type 0} where
  pub update_if_none :
      (p q : A → Bool) (f : A → A) (xs : List A)
      → ((x : A) → p x ≡ true → q x ≡ true)
      → any q xs ≡ false
      → update_if p f xs ≡ xs
  unfolding any update_if
  update_if_none p q f [] k h = refl
  update_if_none p q f (x ∷ xs) k h = elim (Bool-cases (p x)) [
    | inl pass ↦ ground (arith, k x pass)
    | inr fail ↦ ground (arith, fail, update_if_none p q f xs k)
  ]

  -- What changing the one row that a search finds does to a sum.
  pub sum_of-update_if :
      (g : A → ℤ) (key : A → ℕ) (p q : A → Bool) (f : A → A) (xs : List A) (r : A)
      → Distinct key xs
      → find_first q xs ≡ some r
      → p r ≡ true
      → ((x : A) → p x ≡ true → key x ≡ key r)
      → sum_of g (update_if p f xs) +ℤ g r ≡ sum_of g xs +ℤ g (f r)
  unfolding find_first update_if sum_of any
  sum_of-update_if g key p q f [] r d e h k = cc
  sum_of-update_if g key p q f (x ∷ xs) r d e h k = elim (Bool-cases (q x)) [
    | inl pass ↦
        let same : x ≡ r = ground (arith, pass) in
        let rest : update_if p f xs ≡ xs =
          update_if_none p (λ y. key y == key x) f xs (λ y h'. ground (arith, k y h', ap key same))
            d.0 in
        ground (
          arith,
          rest,
          h,
          ap p same,
          ap g same,
          ap (λ y. g (f y)) same,
          swap_sums (g (f r)) (g r) (sum_of g xs),
        )
    | inr fail ↦
        let found : find_first q xs ≡ some r = ground (arith, fail) in
        elim (Bool-cases (p x)) [
          | inl hit ↦
              let there : any (λ y. key y == key x) xs ≡ true =
                any_of_find_first q (λ y. key y == key x) xs r found (ground (arith, k x hit)) in
              cc (d.0, there)
          | inr miss ↦
              let rest = sum_of-update_if g key p q f xs r d.1 found h k in
              rw miss
                (carry_sums (g x) (sum_of g (update_if p f xs)) (g r) (sum_of g xs) (g (f r)) rest)
        ]
  ]

  -- A search finds the row that it found before, changed.
  pub find_first-update_if :
      (p q : A → Bool) (f : A → A) (xs : List A) (r : A)
      → ((x : A) → q (f x) ≡ q x)
      → find_first q xs ≡ some r
      → p r ≡ true
      → find_first q (update_if p f xs) ≡ some (f r)
  unfolding find_first update_if
  find_first-update_if p q f [] r k e h = cc e
  find_first-update_if p q f (x ∷ xs) r k e h = elim (Bool-cases (q x)) [
    | inl pass ↦
        let same : x ≡ r = ground (arith, pass) in
        ground (arith, pass, ap p same, ap f same, k x, h)
    | inr fail ↦
        let found : find_first q xs ≡ some r = ground (arith, fail) in
        ground (arith, fail, k x, find_first-update_if p q f xs r k found h)
  ]

  -- A change that keeps the keys keeps them different.
  pub update_if-Distinct :
      (key : A → ℕ) (p : A → Bool) (f : A → A) (xs : List A)
      → ((x : A) → key (f x) ≡ key x)
      → Distinct key xs
      → Distinct key (update_if p f xs)
  unfolding update_if
  update_if-Distinct key p f [] k d = tt
  update_if-Distinct key p f (x ∷ xs) k d =
      let same =
        λ (y : A). any-update_if (λ z. key z == key y) p f xs (λ z. ap (λ n. n == key y) (k z)) in
      let rest = update_if-Distinct key p f xs k d.1 in
      elim (Bool-cases (p x)) [
        | inl pass ↦ rw pass (same (f x) ∙ ap (λ n. any (λ z. key z == n) xs) (k x) ∙ d.0, rest)
        | inr fail ↦ rw fail (same x ∙ d.0, rest)
      ]

  pub any_of_none : (q : A → Bool) (xs : List A) → find_first q xs ≡ none → any q xs ≡ false
  unfolding find_first any
  any_of_none q [] e = refl
  any_of_none q (x ∷ xs) e = ground (arith, e, any_of_none q xs)

  -- Two searches that find rows of one key find the same row.
  pub find_first_unique :
      (key : A → ℕ) (p q : A → Bool) (xs : List A) (a b : A)
      → Distinct key xs
      → find_first p xs ≡ some a
      → find_first q xs ≡ some b
      → key a ≡ key b
      → a ≡ b
  unfolding find_first
  find_first_unique key p q [] a b d e h k = cc e
  find_first_unique key p q (x ∷ xs) a b d e h k = elim (Bool-cases (p x)) [
    | inl hit ↦
        let one : x ≡ a = ground (arith, hit) in
        elim (Bool-cases (q x)) [
          | inl pass ↦ ground (arith, one, pass)
          | inr fail ↦
              let rest : find_first q xs ≡ some b = ground (arith, fail) in
              let there : any (λ y. key y == key x) xs ≡ true =
                any_of_find_first q (λ y. key y == key x) xs b rest
                  (ground (arith, k, ap key one)) in
              cc (d.0, there)
        ]
    | inr miss ↦
        let rest : find_first p xs ≡ some a = ground (arith, miss) in
        elim (Bool-cases (q x)) [
          | inl pass ↦
              let one : x ≡ b = ground (arith, pass) in
              let there : any (λ y. key y == key x) xs ≡ true =
                any_of_find_first p (λ y. key y == key x) xs a rest
                  (ground (arith, k, ap key one)) in
              cc (d.0, there)
          | inr fail ↦ find_first_unique key p q xs a b d.1 rest (ground (arith, fail)) k
        ]
  ]

module _ {A : Type 0} where
  -- A change of rows that all have the key of the one that a search finds.
  pub All-update_found {κ} :
      (P : A → Type κ) (key : A → ℕ) (p q : A → Bool) (f : A → A) (xs : List A) (e : A)
      → Distinct key xs
      → find_first q xs ≡ some e
      → ((x : A) → p x ≡ true → key x ≡ key e)
      → P (f e)
      → All P xs
      → All P (update_if p f xs)
  unfolding find_first update_if
  All-update_found P key p q f [] e d found ids new h = tt
  All-update_found P key p q f (x ∷ xs) e d found ids new h = elim (Bool-cases (p x)) [
    | inr fail ↦ elim (Bool-cases (q x)) [
      | inl pass ↦
          let one : x ≡ e = ground (arith, pass) in
          let rest : update_if p f xs ≡ xs =
            update_if_none p (λ y. key y == key x) f xs
              (λ y hit. ground (arith, ids y hit, ap key one)) d.0 in
          rw (fail, rest) (h.0, h.1)
      | inr other ↦
          rw fail (h.0, All-update_found P key p q f xs e d.1 (ground (arith, other)) ids new h.1)
    ]
    | inl hit ↦ elim (Bool-cases (q x)) [
      | inl pass ↦
          let one : x ≡ e = ground (arith, pass) in
          let rest : update_if p f xs ≡ xs =
            update_if_none p (λ y. key y == key x) f xs
              (λ y same. ground (arith, ids y same, ap key one)) d.0 in
          rw (hit, rest) (subst (λ y. P (f y)) (sym one) new, h.1)
      | inr other ↦
          let found_later : find_first q xs ≡ some e = ground (arith, other) in
          let there : any (λ y. key y == key x) xs ≡ true =
            any_of_find_first q (λ y. key y == key x) xs e found_later
              (ground (arith, ids x hit)) in
          cc (d.0, there)
    ]
  ]

  -- A change by which no row passes that did not.
  pub count_if-update_if-le :
      (p q : A → Bool) (f : A → A) (xs : List A)
      → ((x : A) → p (f x) ≡ true → p x ≡ true)
      → count_if p (update_if q f xs) ≤ count_if p xs
  unfolding count_if update_if
  count_if-update_if-le p q f [] k = omega arith
  count_if-update_if-le p q f (x ∷ xs) k = ground (arith, k x, count_if-update_if-le p q f xs k)
