-- ===== src/Prelude/Sorting/Laws.antt =====
-- The result of a sort does not depend on the order of its input, for a total order.
use mathlib.Core.Path.{◌≡◌, refl, sym, ◌∙◌, ap}
use mathlib.Core.Logic.{inl, inr}
use mathlib.Core.List.{Permᴰ}
use mathlib.Core.Bool.{Bool, true, false}
use mathlib.Core.List.{List, [], ◌∷◌, map}
use native.Mathlib.Omega.{arith}
use gwlint.Prelude.Tests.{Bool-cases}
use Prim.Native.Nat.{suc}
use gwlint.Prelude.Lists.{length}
use gwlint.Prelude.Sorting.{insert_sorted, sort}

-- The laws of a strict total order, as the sort uses them.
pub record Total {ℓ} {A : Type ℓ} (less : A → A → Bool) : Type ℓ where
  pub asym : (a b : A) → less a b ≡ true → less b a ≡ false
  pub total : (a b : A) → less a b ≡ false → less b a ≡ false → a ≡ b
  pub trans : (a b c : A) → less b a ≡ false → less c b ≡ false → less c a ≡ false

module _ {ℓ} {A : Type ℓ} (less : A → A → Bool) (order : Total less) where
  insert_sorted_comm :
      (a b : A) (xs : List A)
      → insert_sorted less a (insert_sorted less b xs)
        ≡ insert_sorted less b (insert_sorted less a xs)
  insert_sorted_comm a b [] = elim (Bool-cases (less a b)) [
    | inl h ↦ rw (h, order.asym a b h) refl
    | inr h ↦ elim (Bool-cases (less b a)) [
      | inl k ↦ rw (h, k) refl
      | inr k ↦ let e = order.total a b h k in rw (h, k) (cc)
    ]
  ]
  insert_sorted_comm a b (c ∷ xs) = ground (
    arith,
    insert_sorted_comm a b xs,
    order.asym a b,
    order.total a b,
    order.trans a b c,
    order.trans b a c,
  )

  -- A rearrangement of a list is sorted into the same list.
  pub sort-Permᴰ : {xs ys : List A} → Permᴰ xs ys → sort less xs ≡ sort less ys
  sort-Permᴰ Permᴰ.nil = refl
  sort-Permᴰ (Permᴰ.cons e d) = let rest = sort-Permᴰ d in cc
  sort-Permᴰ (Permᴰ.swap {a} {b} {l = l} e₁ e₂) =
      rw (sym e₁, sym e₂) (insert_sorted_comm a b (sort less l))
  sort-Permᴰ (Permᴰ.trans d₁ d₂) = sort-Permᴰ d₁ ∙ sort-Permᴰ d₂

pub Permᴰ-map {ℓ κ} :
    {A : Type ℓ} {B : Type κ} (f : A → B) {xs ys : List A}
    → Permᴰ xs ys
    → Permᴰ (map f xs) (map f ys)
Permᴰ-map f Permᴰ.nil = Permᴰ.nil
Permᴰ-map f (Permᴰ.cons e d) = Permᴰ.cons (ap f e) (Permᴰ-map f d)
Permᴰ-map f (Permᴰ.swap e₁ e₂) = Permᴰ.swap (ap f e₁) (ap f e₂)
Permᴰ-map f (Permᴰ.trans d₁ d₂) = Permᴰ.trans (Permᴰ-map f d₁) (Permᴰ-map f d₂)

pub Permᴰ-length {ℓ} : {A : Type ℓ} {xs ys : List A} → Permᴰ xs ys → length xs ≡ length ys
Permᴰ-length Permᴰ.nil = refl
Permᴰ-length (Permᴰ.cons e d) = ap suc (Permᴰ-length d)
Permᴰ-length (Permᴰ.swap e₁ e₂) = refl
Permᴰ-length (Permᴰ.trans d₁ d₂) = Permᴰ-length d₁ ∙ Permᴰ-length d₂
