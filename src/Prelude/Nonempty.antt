-- ===== src/Prelude/Nonempty.antt =====
-- Slices with some element, as the loops build them.
use mathlib.Core.Path.{◌≡◌, refl}
use mathlib.Core.Logic.{◌↔◌, ◌⊎◌, inl, inr}
use mathlib.Core.Bool.{Bool, true, false}
use mathlib.Core.List.{List, [], ◌∷◌, ◌++◌, map}
use gwlint.Prelude.Tests.{Bool-cases}
use gwlint.Prelude.Lists.{is_empty, filter, Any, flat_map}
use gwlint.Prelude.Search.{Any-mono, filter_iff, is_empty-eq-false}
use gwlint.Prelude.Sorting.{insert_sorted, sort}

-- Some element is there.
abbrev pub Reports {ℓ} : {A : Type ℓ} → List A → Type 0
Reports ds = is_empty ds ≡ false

pub Reports-append {ℓ} :
    {A : Type ℓ} (xs ys : List A) → Reports (xs ++ ys) ↔ (Reports xs ⊎ Reports ys)
Reports-append [] ys = (λ h. inr h, elim [ inl h ↦ cc | inr h ↦ h ])
Reports-append (x ∷ xs) ys = (λ h. inl refl, λ h. refl)

pub Reports-map {ℓ κ} :
    {A : Type ℓ} {B : Type κ} (f : A → B) (xs : List A) → Reports (map f xs) ↔ Reports xs
Reports-map f [] = (λ h. cc, λ h. cc)
Reports-map f (x ∷ xs) = (λ h. refl, λ h. refl)

pub Reports-flat_map {ℓ κ} :
    {A : Type ℓ} {B : Type κ} (f : A → List B) (xs : List A)
    → Reports (flat_map f xs) ↔ Any (λ x. Reports (f x)) xs
Reports-flat_map f [] = (λ h. cc, λ h. absurd h)
Reports-flat_map f (x ∷ xs) =
    let (split, join) = Reports-append (f x) (flat_map f xs) in
    let (found, kept) = Reports-flat_map f xs in
    (
      λ h. elim (split h) [ inl k ↦ inl k | inr k ↦ inr (found k) ],
      elim [ inl k ↦ join (inl k) | inr k ↦ join (inr (kept k)) ],
    )

pub Reports-sort {ℓ} :
    {A : Type ℓ} (less : A → A → Bool) (xs : List A) → Reports (sort less xs) ↔ Reports xs
Reports-sort less [] = (λ h. h, λ h. h)
Reports-sort less (x ∷ xs) = (λ h. refl, λ h. nonempty (sort less xs))
  where
    nonempty : (ys : List _) → Reports (insert_sorted less x ys)
    nonempty [] = refl
    nonempty (y ∷ ys) = elim (Bool-cases (less y x)) [ inl e ↦ rw e refl | inr e ↦ rw e refl ]

pub Reports-filter {ℓ} :
    {A : Type ℓ} (p : A → Bool) (xs : List A) → Reports (filter p xs) ↔ Any (λ x. p x ≡ true) xs
Reports-filter p xs =
    let (found, kept) = filter_iff (λ _. Unit) p xs in
    let (some_x, nonempty) = is_empty-eq-false (filter p xs) in
    (
      λ h. Any-mono (λ x (k, _). k) xs (found (some_x h)),
      λ h. nonempty (kept (Any-mono (λ x k. (k, tt)) xs h)),
    )
