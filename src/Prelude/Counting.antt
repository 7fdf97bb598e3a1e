-- ===== src/Prelude/Counting.antt =====
-- Go's map[string]int, built by `m[k]++`.
use Prim.Native.Nat.{ℕ, suc, ◌+◌}
use Prim.Native.String.{String}
use mathlib.Core.Path.{◌≡◌}
use mathlib.Core.List.{List, [], ◌∷◌}
use native.Mathlib.Omega.{arith}
use gwlint.Prelude.Tests.{if◌then◌else◌, string_eq, ◌==◌}

abbrev pub Counts : Type 0
Counts = List (String × ℕ)

-- m[k], which is 0 where the key is missing.
abbrev pub count_of : String → Counts → ℕ
count_of k [] = 0
count_of k ((j, n) ∷ m) = if j == k then n else count_of k m

abbrev pub increment : String → Counts → Counts
increment k [] = (k, 1) ∷ []
increment k ((j, n) ∷ m) = if j == k then (j, suc n) ∷ m else (j, n) ∷ increment k m

pub count_of-increment :
    (k j : String) (m : Counts)
    → count_of k (increment j m) ≡ count_of k m + (if j == k then 1 else 0)
count_of-increment k j [] = ground (arith, string_eq.beq_iff j k)
count_of-increment k j ((i, n) ∷ m) = ground (
  arith,
  count_of-increment k j m,
  string_eq.beq_iff i j,
  string_eq.beq_iff i k,
  string_eq.beq_iff j k,
)
