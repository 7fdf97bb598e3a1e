-- ===== src/Prelude/Sorting.antt =====
-- sort.Strings and sort.Slice: an insertion sort, whose result is theirs wherever elements that
-- neither precede one another are equal.
pub mod Laws
use Prim.Native.Nat.{ℕ}
use Prim.Native.Char.{code}
use Prim.Native.String.{String}
use mathlib.Core.Bool.{Bool, true, false, ◌&&◌, ◌||◌}
use mathlib.Core.List.{List, [], ◌∷◌}
use gwlint.Prelude.Tests.{if◌then◌else◌, ltb, nat_eq, ◌==◌}

-- The code points of a text, whose order is the order of its UTF-8 bytes.
abbrev pub codes : String → List ℕ
codes String.[] = []
codes (String.◌∷◌ c s) = code c ∷ codes s

abbrev pub codes_less : List ℕ → List ℕ → Bool
codes_less [] [] = false
codes_less [] (_ ∷ _) = true
codes_less (_ ∷ _) [] = false
codes_less (a ∷ s) (b ∷ t) = ltb a b || a == b && codes_less s t

-- `s < t`
unfoldable pub str_less : String → String → Bool
str_less s t = codes_less (codes s) (codes t)

module _ {ℓ} {A : Type ℓ} (less : A → A → Bool) where
  abbrev pub insert_sorted : A → List A → List A
  insert_sorted a [] = a ∷ []
  insert_sorted a (b ∷ xs) = if less b a then b ∷ insert_sorted a xs else a ∷ b ∷ xs

  abbrev pub sort : List A → List A
  sort [] = []
  sort (a ∷ xs) = insert_sorted a (sort xs)

unfoldable pub sort_strings : List String → List String
unfolding str_less
sort_strings = sort str_less
