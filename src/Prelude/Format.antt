-- ===== src/Prelude/Format.antt =====
-- Text that fmt.Sprintf builds, as the pieces that it prints: `%s` and the words of the format are
-- `lit`, `%q` is `quoted` and `%d` is `dec`, or `int` for a signed number. What strconv prints for
-- the last three stays symbolic; none of them prints nothing.
use Prim.Native.Nat.{ℕ}
use Prim.Native.String.{String}
use mathlib.Core.Bool.{Bool, true, false, ◌&&◌}
use mathlib.Core.List.{List, [], ◌∷◌, ◌++◌, map}
use gwlint.Prelude.Integers.{ℤ}
use gwlint.Prelude.Tests.{string_eq, ◌==◌}

pub data Piece : Type 0 where
  lit quoted : String → Piece
  dec : ℕ → Piece
  int : ℤ → Piece

abbrev pub Text : Type 0
Text = List Piece

-- `text == ""`
abbrev pub blank : Text → Bool
blank [] = true
blank (lit s ∷ t) = s == "" && blank t
blank (_ ∷ t) = false

-- strings.Join
abbrev pub join : String → List Text → Text
join sep [] = []
join sep (t ∷ []) = t
join sep (t ∷ u ∷ ts) = t ++ lit sep ∷ join sep (u ∷ ts)

abbrev pub join_words : String → List String → Text
join_words sep words = join sep (map (λ w. lit w ∷ []) words)

pub record Diagnostic : Type 0 where
  pub message : Text
