-- ===== src/Prelude/Quoting.antt =====
-- The order of texts as fmt's %q writes them. A quotation mark, a backslash and the control
-- characters of ASCII are written as escapes. Every character past ASCII is taken as printable,
-- which %q leaves as it is.
use Prim.Native.Nat.{ℕ, ◌+◌, ◌-◌, ◌/◌, ◌%◌}
use Prim.Native.String.{String}
use mathlib.Core.List.{List, [], ◌∷◌, ◌++◌}
use mathlib.Core.Bool.{Bool, ◌||◌}
use gwlint.Prelude.Tests.{ltb, ◌==◌, if◌then◌else◌, nat_eq}
use gwlint.Prelude.Sorting.{codes, codes_less}
use gwlint.Prelude.Lists.{flat_map}

abbrev hex_digit : ℕ → ℕ
hex_digit n = if ltb n 10 then n + b'0' else (n - 10) + b'a'

-- `\x` and two digits.
abbrev hex : ℕ → List ℕ
hex c = b'\\' ∷ b'x' ∷ hex_digit (c / 16) ∷ hex_digit (c % 16) ∷ []

abbrev escape : ℕ → List ℕ
escape c =
    if c == b'"' || c == b'\\'
    then b'\\' ∷ c ∷ []
    else if c == 7
    then b'\\' ∷ b'a' ∷ []
    else if c == 8
    then b'\\' ∷ b'b' ∷ []
    else if c == 12
    then b'\\' ∷ b'f' ∷ []
    else if c == 10
    then b'\\' ∷ b'n' ∷ []
    else if c == 13
    then b'\\' ∷ b'r' ∷ []
    else if c == 9
    then b'\\' ∷ b't' ∷ []
    else if c == 11
    then b'\\' ∷ b'v' ∷ []
    else if ltb c 32 || c == 127
    then hex c
    else c ∷ []

abbrev quoted_codes : String → List ℕ
quoted_codes s = b'"' ∷ flat_map escape (codes s) ++ b'"' ∷ []

unfoldable pub quoted_less : String → String → Bool
quoted_less a b = codes_less (quoted_codes a) (quoted_codes b)
