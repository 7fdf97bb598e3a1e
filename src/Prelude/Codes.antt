-- ===== src/Prelude/Codes.antt =====
-- Equality of texts that are given as code points.
use Prim.Native.Nat.{ℕ}
use mathlib.Core.Path.{◌≡◌}
use mathlib.Core.Logic.{◌↔◌}
use mathlib.Core.Bool.{Bool, true, false, ◌&&◌}
use mathlib.Core.List.{List, [], ◌∷◌}
use native.Mathlib.Omega.{arith}
use gwlint.Prelude.Tests.{nat_eq, Eq, ◌==◌}

abbrev pub codes_beq : List ℕ → List ℕ → Bool
codes_beq [] [] = true
codes_beq [] (b ∷ t) = false
codes_beq (a ∷ s) [] = false
codes_beq (a ∷ s) (b ∷ t) = a == b && codes_beq s t

pub codes_beq_iff : (s t : List ℕ) → (codes_beq s t ≡ true) ↔ (s ≡ t)
codes_beq_iff [] [] = ground arith
codes_beq_iff [] (b ∷ t) = ground arith
codes_beq_iff (a ∷ s) [] = ground arith
codes_beq_iff (a ∷ s) (b ∷ t) = ground (arith, codes_beq_iff s t)

instance abbrev pub codes_eq : Eq (List ℕ)
codes_eq = record { beq = codes_beq; beq_iff = codes_beq_iff }
