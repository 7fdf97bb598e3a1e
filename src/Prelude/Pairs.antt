-- ===== src/Prelude/Pairs.antt =====
-- Two elements of a list, the first before the second, that stand in a relation.
use mathlib.Core.Path.{◌≡◌, refl}
use mathlib.Core.Logic.{◌↔◌, ◌⊎◌, inl, inr}
use mathlib.Core.Bool.{Bool, true, false}
use mathlib.Core.List.{List, [], ◌∷◌}
use gwlint.Prelude.Tests.{Bool-cases}
use gwlint.Prelude.Lists.{filter, Any}
use gwlint.Prelude.Search.{Any-mono, filter_iff}

-- More than one element.
abbrev pub several {ℓ} : {A : Type ℓ} → List A → Bool
several [] = false
several (x ∷ []) = false
several (x ∷ y ∷ xs) = true

module _ {ℓ} {A : Type ℓ} where
  abbrev pub SomePair : (A → A → Type 0) → List A → Type 0
  SomePair R [] = ⊥
  SomePair R (x ∷ xs) = Any (R x) xs ⊎ SomePair R xs

  pub SomePair-mono :
      {R S : A → A → Type 0}
      → ((x y : A) → R x y → S x y)
      → (xs : List A) → SomePair R xs
      → SomePair S xs
  SomePair-mono f [] h = elim h [ ]
  SomePair-mono f (x ∷ xs) (inl h) = inl (Any-mono (f x) xs h)
  SomePair-mono f (x ∷ xs) (inr h) = inr (SomePair-mono f xs h)

  -- Neither a pair nor its kind depends on when the kind is chosen.
  Any-or : (P Q : A → Type 0) (xs : List A) → Any (λ x. P x ⊎ Q x) xs → Any P xs ⊎ Any Q xs
  Any-or P Q [] h = absurd h
  Any-or P Q (x ∷ xs) (inl (inl h)) = inl (inl h)
  Any-or P Q (x ∷ xs) (inl (inr h)) = inr (inl h)
  Any-or P Q (x ∷ xs) (inr h) = elim (Any-or P Q xs h) [ inl k ↦ inl (inr k) | inr k ↦ inr (inr k) ]

  pub SomePair-or :
      (R S : A → A → Type 0) (xs : List A)
      → SomePair (λ x y. R x y ⊎ S x y) xs ↔ (SomePair R xs ⊎ SomePair S xs)
  SomePair-or R S xs = (split xs, join xs)
    where
      split : (ys : List A) → SomePair (λ x y. R x y ⊎ S x y) ys → SomePair R ys ⊎ SomePair S ys
      split [] h = absurd h
      split (y ∷ ys) (inl h) = elim (Any-or (R y) (S y) ys h) [
        | inl k ↦ inl (inl k)
        | inr k ↦ inr (inl k)
      ]
      split (y ∷ ys) (inr h) = elim (split ys h) [ inl k ↦ inl (inr k) | inr k ↦ inr (inr k) ]

      join : (ys : List A) → SomePair R ys ⊎ SomePair S ys → SomePair (λ x y. R x y ⊎ S x y) ys
      join ys (inl h) = SomePair-mono (λ x y r. inl r) ys h
      join ys (inr h) = SomePair-mono (λ x y r. inr r) ys h

  pub SomePair-witness :
      {Y : Type 0} (P : Y → A → A → Type 0) (xs : List A)
      → SomePair (λ a b. (y : Y) × P y a b) xs
      → (y : Y) × SomePair (P y) xs
  SomePair-witness P [] h = absurd h
  SomePair-witness P (x ∷ xs) (inl h) = let (y, k) = found xs h in (y, inl k)
    where
      found : (ys : List A) → Any (λ b. (y : _) × P y x b) ys → (y : _) × Any (P y x) ys
      found [] h = absurd h
      found (z ∷ zs) (inl (y, p)) = (y, inl p)
      found (z ∷ zs) (inr h) = let (y, p) = found zs h in (y, inr p)
  SomePair-witness P (x ∷ xs) (inr h) = let (y, k) = SomePair-witness P xs h in (y, inr k)

  -- A pair of a filtered list is a pair of the list that passes.
  pub filter-SomePair :
      (R : A → A → Type 0) (p : A → Bool) (xs : List A)
      → SomePair R (filter p xs) ↔ SomePair (λ x y. (p x ≡ true) × (p y ≡ true) × R x y) xs
  filter-SomePair R p [] = (λ h. h, λ h. h)
  filter-SomePair R p (x ∷ xs) =
      let (found, kept) = filter_iff (R x) p xs in
      let (later, before) = filter-SomePair R p xs in
      elim (Bool-cases (p x)) [
        | inl e ↦ rw e (
          elim [
            | inl h ↦ inl (Any-mono (λ y (k, r). (refl, k, r)) xs (found h))
            | inr h ↦ inr (later h)
          ],
          elim [
            | inl h ↦ inl (kept (Any-mono (λ y (_, k, r). (k, r)) xs h))
            | inr h ↦ inr (before h)
          ],
        )
        | inr e ↦ rw e (
          λ h. inr (later h),
          elim [ inl h ↦ absurd (never (λ y. p y ≡ true) (R x) xs h) | inr h ↦ before h ],
        )
      ]
    where
      never : (B C : A → Type 0) (ys : List A) → Any (λ y. (false ≡ true) × B y × C y) ys → ⊥
      never B C [] h = absurd h
      never B C (y ∷ ys) (inl h) = cc
      never B C (y ∷ ys) (inr h) = never B C ys h

  pub several_iff : (xs : List A) → (several xs ≡ true) ↔ SomePair (λ x y. Unit) xs
  several_iff [] = (λ h. cc, λ h. absurd h)
  several_iff (x ∷ []) = (λ h. cc, elim [ inl h ↦ absurd h | inr h ↦ absurd h ])
  several_iff (x ∷ y ∷ xs) = (λ h. inl (inl tt), λ h. refl)

  -- A relation that is symmetric and holds of no element and itself holds of a pair wherever it
  -- holds of two elements.
  pub paired_apart :
      (R : A → A → Type 0)
      → ((x y : A) → R x y → R y x)
      → ((x : A) → ¬ R x x)
      → (xs : List A) → Any (λ x. Any (R x) xs) xs
      → SomePair R xs
  paired_apart R symm irrefl [] h = absurd h
  paired_apart R symm irrefl (x ∷ xs) (inl (inl h)) = absurd (irrefl x h)
  paired_apart R symm irrefl (x ∷ xs) (inl (inr h)) = inl h
  paired_apart R symm irrefl (x ∷ xs) (inr h) = elim (turned xs h) [
    | inl k ↦ inl k
    | inr k ↦ inr (paired_apart R symm irrefl xs k)
  ]
    where
      turned :
          (ys : List A)
          → Any (λ y. R y x ⊎ Any (R y) xs) ys
          → Any (R x) ys ⊎ Any (λ y. Any (R y) xs) ys
      turned [] k = absurd k
      turned (y ∷ ys) (inl (inl k)) = inl (inl (symm y x k))
      turned (y ∷ ys) (inl (inr k)) = inr (inl k)
      turned (y ∷ ys) (inr k) = elim (turned ys k) [ inl j ↦ inl (inr j) | inr j ↦ inr (inr j) ]

  pub SomePair-Any : (R : A → A → Type 0) (xs : List A) → SomePair R xs → Any (λ x. Any (R x) xs) xs
  SomePair-Any R [] h = absurd h
  SomePair-Any R (x ∷ xs) (inl h) = inl (inr h)
  SomePair-Any R (x ∷ xs) (inr h) = inr (Any-mono (λ y k. inr k) xs (SomePair-Any R xs h))
