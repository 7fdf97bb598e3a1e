-- ===== src/Prelude/Tests.antt =====
-- The conditional, case splits that keep the equation, and equality tests as an instance.
use Prim.Native.Nat.{ℕ, compare, Ordering}
use Prim.Native.String.{String}
use mathlib.Core.Path.{◌≡◌, refl, sym, ap, ◌∙◌}
use mathlib.Core.Logic.{◌≢◌, ◌↔◌, ◌⊎◌, inl, inr}
use mathlib.Core.Bool.{Bool, true, false, not, false≢true}
use mathlib.Core.Option.{Option, none, some}
use native.Mathlib.Omega.{arith}
use text.Mathlib.Text.{◌==◌ as text_beq}
use text.Mathlib.TextEquality.{eq_iff}

abbrev pub ltb : ℕ → ℕ → Bool
ltb a b = elim (compare a b) [ Ordering.lt ↦ true | _ ↦ false ]

abbrev pub nat_beq : ℕ → ℕ → Bool
nat_beq a b = elim (compare a b) [ Ordering.eq ↦ true | _ ↦ false ]

pub nat_beq_iff : (a b : ℕ) → (nat_beq a b ≡ true) ↔ (a ≡ b)
nat_beq_iff a b = ground arith

infix 1 if◌then◌else◌
abbrev pub if◌then◌else◌ {ℓ} : {A : Type ℓ} → Bool → A → A → A
if true then x else y = x
if false then x else y = y

pub Bool-cases : (b : Bool) → (b ≡ true) ⊎ (b ≡ false)
Bool-cases true = inl refl
Bool-cases false = inr refl

pub eq-false_of_ne : {b : Bool} → ¬ (b ≡ true) → b ≡ false
eq-false_of_ne {b = true} h = absurd (h refl)
eq-false_of_ne {b = false} h = refl

-- Go's `==` on a comparable type.
pub record Eq {ℓ} (A : Type ℓ) : Type ℓ where
  pub beq : A → A → Bool
  pub beq_iff : (a b : A) → (beq a b ≡ true) ↔ (a ≡ b)

pub Option-cases {ℓ} : {A : Type ℓ} (o : Option A) → (o ≡ none) ⊎ ((a : A) × (o ≡ some a))
Option-cases none = inl refl
Option-cases (some a) = inr (a, refl)

infix 50 ◌==◌
abbrev pub ◌==◌ {ℓ} : {A : Type ℓ} ⦃e : Eq A⦄ → A → A → Bool
◌==◌ ⦃e⦄ = e.beq

pub ==_refl {ℓ} : {A : Type ℓ} ⦃e : Eq A⦄ (a : A) → (a == a) ≡ true
==_refl ⦃e⦄ a = (e.beq_iff a a).1 refl

-- `*p` where the pointer has been tested, and the default where it is nil.
abbrev pub or_else {ℓ} : {A : Type ℓ} → Option A → A → A
or_else none d = d
or_else (some a) d = a

instance abbrev pub string_eq : Eq String
string_eq = record { beq = text_beq; beq_iff = eq_iff }

-- A comparison of texts that fails.
pub differs_iff : (a b : String) → ((a == b) ≡ false) ↔ (a ≢ b)
differs_iff a b = (
  λ h e. false≢true (sym h ∙ (string_eq.beq_iff a b).1 e),
  λ h. eq-false_of_ne (λ e. h ((string_eq.beq_iff a b).0 e)),
)

instance abbrev pub nat_eq : Eq ℕ
nat_eq = record { beq = nat_beq; beq_iff = nat_beq_iff }

-- A result that is there unless the test passes.
pub some_unless {ℓ} :
    {A : Type ℓ} (b : Bool) (a : A)
    → ((x : A) × ((if b then none else some a) ≡ some x)) ↔ (b ≡ false)
some_unless true a = (λ (x, e). cc, λ e. cc)
some_unless false a = (λ _. refl, λ _. (a, refl))

pub some_unless_either {ℓ} :
    {A : Type ℓ} (b c : Bool) (a : A)
    → ((x : A) × ((if b then none else if c then none else some a) ≡ some x))
      ↔ ((b ≡ false) × (c ≡ false))
some_unless_either true c a = (λ (x, e). cc, λ h. cc)
some_unless_either false true a = (λ (x, e). cc, λ h. cc)
some_unless_either false false a = (λ _. (refl, refl), λ _. (a, refl))

-- A result behind a guard is there where the guard lets it pass.
pub guarded_iff {ℓ} :
    {A : Type ℓ} {P Q : Type 0} (b : Bool) (o : Option A)
    → ((b ≡ true) ↔ P)
    → (((x : A) × (o ≡ some x)) ↔ Q)
    → ((x : A) × ((if not b then none else o) ≡ some x)) ↔ (P × Q)
guarded_iff true o p q = (λ h. (p.0 refl, q.0 h), λ (_, k). q.1 k)
guarded_iff false o p q = (λ (x, e). cc, λ (k, _). absurd (false≢true (p.1 k)))

pub iff_trans : {P Q R : Type 0} → P ↔ Q → Q ↔ R → P ↔ R
iff_trans f g = (λ p. g.0 (f.0 p), λ r. f.1 (g.1 r))

-- A result behind three guards.
pub some_after_guards {ℓ} :
    {A : Type ℓ} (a b c : Bool) (x d : A)
    → ((if not a then none else if not b then none else if c then none else some x) ≡ some d)
      ↔ ((a ≡ true) × (b ≡ true) × (c ≡ false) × (x ≡ d))
some_after_guards false b c x d = (λ e. cc, λ h. cc)
some_after_guards true false c x d = (λ e. cc, λ h. cc)
some_after_guards true true true x d = (λ e. cc, λ h. cc)
some_after_guards true true false x d = (λ e. (refl, refl, refl, cc), λ (_, _, _, e). ap some e)

-- A result past one guard, behind a second, and past a third.
pub some_past {ℓ} :
    {A : Type ℓ} (a b c : Bool) (x : A)
    → ((d : A) × ((if a then none else if not b then none else if c then none else some x)
          ≡ some d))
      ↔ ((a ≡ false) × (b ≡ true) × (c ≡ false))
some_past true b c x = (λ (d, e). cc, λ h. cc)
some_past false false c x = (λ (d, e). cc, λ h. cc)
some_past false true true x = (λ (d, e). cc, λ h. cc)
some_past false true false x = (λ _. (refl, refl, refl), λ _. (x, refl))
