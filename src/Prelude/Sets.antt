-- ===== src/Prelude/Sets.antt =====
-- Go's map[K]struct{}, as the list of its elements, none twice.
use Prim.Native.Nat.{◌+◌, ◌≤◌}
use mathlib.Core.Path.{◌≡◌}
use mathlib.Core.Bool.{◌||◌}
use mathlib.Core.List.{List, [], ◌∷◌}
use native.Mathlib.Omega.{arith}
use gwlint.Prelude.Tests.{if◌then◌else◌, Eq, ◌==◌}
use gwlint.Prelude.Lists.{length}
use gwlint.Prelude.Search.{contains}

module _ {A : Type 0} ⦃e : Eq A⦄ where
  -- `set[a] = struct{}{}`
  abbrev pub add : A → List A → List A
  add a [] = a ∷ []
  add a (b ∷ set) = if b == a then b ∷ set else b ∷ add a set

  -- The loop that adds every element.
  abbrev pub add_all : List A → List A → List A
  add_all [] set = set
  add_all (a ∷ xs) set = add_all xs (add a set)

  pub contains-add : (a b : A) (set : List A) → contains (add a set) b ≡ (a == b || contains set b)
  contains-add a b [] = ground arith
  contains-add a b (c ∷ set) =
      ground (arith, contains-add a b set, e.beq_iff c a, e.beq_iff c b, e.beq_iff a b)

  pub length-add : (a : A) (set : List A) → length (add a set) ≤ length set + 1
  length-add a [] = omega arith
  length-add a (c ∷ set) = ground (arith, length-add a set)
