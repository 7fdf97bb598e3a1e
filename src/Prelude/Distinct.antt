-- ===== src/Prelude/Distinct.antt =====
-- Lists without repetitions, and what a sort keeps of the elements.
use mathlib.Core.Path.{◌≡◌, refl, sym, ◌∙◌, ap, subst}
use mathlib.Core.Logic.{◌≢◌, ◌↔◌, inl, inr}
use mathlib.Core.Bool.{Bool, true, false, ◌||◌, false≢true}
use mathlib.Core.List.{List, [], ◌∷◌}
use native.Mathlib.Omega.{arith}
use gwlint.Prelude.Tests.{Bool-cases, Eq, ◌==◌, ==_refl}
use gwlint.Prelude.Sorting.{insert_sorted, sort}
use gwlint.Prelude.Lists.{Any}
use gwlint.Prelude.Search.{contains}
use gwlint.Prelude.Pairs.{SomePair, SomePair-mono, SomePair-Any, paired_apart}

module _ {A : Type 0} ⦃e : Eq A⦄ where
  -- No element comes twice.
  abbrev pub Unrepeated : List A → Type 0
  Unrepeated [] = Unit
  Unrepeated (x ∷ xs) = (contains xs x ≡ false) × Unrepeated xs

module _ {A : Type 0} ⦃e : Eq A⦄ where
  -- Something holds of an element exactly when it holds of a member.
  pub Any-contains :
      (P : A → Type 0) (xs : List A) → Any P xs ↔ ((a : A) × (contains xs a ≡ true) × P a)
  Any-contains P [] = (λ h. absurd h, λ (a, h, _). cc)
  Any-contains P (x ∷ xs) = (
    elim [
      | inl p ↦ (x, rw (==_refl x) refl, p)
      | inr h ↦ let (a, member, p) = (Any-contains P xs).0 h in (a, ground arith, p)
    ],
    λ (a, member, p). elim (Bool-cases (x == a)) [
      | inl same ↦ inl (subst P (sym ((e.beq_iff x a).0 same)) p)
      | inr other ↦ inr ((Any-contains P xs).1 (a, ground arith, p))
    ],
  )

  distinct :
      (x : A) (P : A → Type 0) (ys : List A)
      → contains ys x ≡ false
      → Any P ys
      → Any (λ y. (x ≢ y) × P y) ys
  distinct x P [] h k = absurd k
  distinct x P (y ∷ ys) h (inl p) =
      inl (λ eq. false≢true (sym h ∙ (let same = (e.beq_iff y x).1 (sym eq) in ground arith)), p)
  distinct x P (y ∷ ys) h (inr k) = inr (distinct x P ys (ground arith) k)

  apart :
      (R : A → A → Type 0) (xs : List A)
      → Unrepeated xs
      → SomePair R xs
      → SomePair (λ x y. (x ≢ y) × R x y) xs
  apart R [] u h = absurd h
  apart R (x ∷ xs) (fresh, u) (inl h) = inl (distinct x (R x) xs fresh h)
  apart R (x ∷ xs) (fresh, u) (inr h) = inr (apart R xs u h)

  -- A pair of a list without repetitions is two different elements.
  pub Unrepeated-SomePair :
      (R : A → A → Type 0)
      → ((x y : A) → R x y → R y x)
      → (xs : List A) → Unrepeated xs
      → SomePair R xs ↔ Any (λ x. Any (λ y. (x ≢ y) × R x y) xs) xs
  Unrepeated-SomePair R symm xs u = (
    λ h. SomePair-Any _ xs (apart R xs u h),
    λ h.
        SomePair-mono (λ x y (_, r). r) xs
          (paired_apart (λ x y. (x ≢ y) × R x y) (λ x y (n, r). (λ eq. n (sym eq), symm x y r))
            (λ x (n, _). n refl) xs h),
  )

  module _ (less : A → A → Bool) where
    contains-insert_sorted :
        (a b : A) (xs : List A) → contains (insert_sorted less a xs) b ≡ (a == b || contains xs b)
    contains-insert_sorted a b [] = refl
    contains-insert_sorted a b (x ∷ xs) = ground (arith, contains-insert_sorted a b xs)

    pub contains-sort : (b : A) (xs : List A) → contains (sort less xs) b ≡ contains xs b
    contains-sort b [] = refl
    contains-sort b (x ∷ xs) =
        contains-insert_sorted x b (sort less xs) ∙ ap (λ c. x == b || c) (contains-sort b xs)

    insert_sorted-Unrepeated :
        (a : A) (xs : List A)
        → contains xs a ≡ false
        → Unrepeated xs
        → Unrepeated (insert_sorted less a xs)
    insert_sorted-Unrepeated a [] h u = (refl, tt)
    insert_sorted-Unrepeated a (x ∷ xs) h (fresh, u) = elim (Bool-cases (less x a)) [
      | inl before ↦
          let rest = insert_sorted-Unrepeated a xs (ground arith) u in
          let new : contains (insert_sorted less a xs) x ≡ false =
            ground (arith, contains-insert_sorted a x xs, e.beq_iff a x, e.beq_iff x a) in
          rw before (new, rest)
      | inr after ↦ rw after (h, (fresh, u))
    ]

    pub sort-Unrepeated : (xs : List A) → Unrepeated xs → Unrepeated (sort less xs)
    sort-Unrepeated [] u = tt
    sort-Unrepeated (x ∷ xs) (fresh, u) =
        insert_sorted-Unrepeated x (sort less xs) (contains-sort x xs ∙ fresh)
          (sort-Unrepeated xs u)

    pub sort-Any : (P : A → Type 0) (xs : List A) → Any P (sort less xs) ↔ Any P xs
    sort-Any P xs = (
      λ h.
          let (a, member, p) = (Any-contains P (sort less xs)).0 h in
          (Any-contains P xs).1 (a, sym (contains-sort a xs) ∙ member, p),
      λ h.
          let (a, member, p) = (Any-contains P xs).0 h in
          (Any-contains P (sort less xs)).1 (a, contains-sort a xs ∙ member, p),
    )
