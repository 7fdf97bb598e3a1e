-- ===== src/Prelude/Ordering.antt =====
-- The order of texts is total: of two different texts one comes before the other.
use Prim.Native.Nat.{ℕ}
use Prim.Native.String.{String}
use text.Mathlib.TextEquality.{Char-path}
use mathlib.Core.Path.{◌≡◌, refl}
use mathlib.Core.Bool.{true, false}
use mathlib.Core.List.{List, [], ◌∷◌}
use native.Mathlib.Omega.{arith}
use gwlint.Prelude.Sorting.Laws.{Total}
use gwlint.Prelude.Sorting.{codes, codes_less, str_less}

pub codes_less-total : (s t : List ℕ) → codes_less s t ≡ false → codes_less t s ≡ false → s ≡ t
codes_less-total [] [] h k = refl
codes_less-total [] (b ∷ t) h k = cc
codes_less-total (a ∷ s) [] h k = cc
codes_less-total (a ∷ s) (b ∷ t) h k = ground (arith, codes_less-total s t)

codes_injective : (s t : String) → codes s ≡ codes t → s ≡ t
codes_injective String.[] String.[] h = refl
codes_injective String.[] (String.◌∷◌ d t) h = cc
codes_injective (String.◌∷◌ c s) String.[] h = cc
codes_injective (String.◌∷◌ c s) (String.◌∷◌ d t) h =
    let same : c ≡ d = Char-path c d (cc) in let rest : s ≡ t = codes_injective s t (cc) in cc

pub str_less-total : (s t : String) → str_less s t ≡ false → str_less t s ≡ false → s ≡ t
unfolding str_less
str_less-total s t h k = codes_injective s t (codes_less-total (codes s) (codes t) h k)

-- A text that does not come after a second, which does not come after a third, does not come
-- after the third.
pub codes_less_trans :
    (s t u : List ℕ) → codes_less t s ≡ false → codes_less u t ≡ false → codes_less u s ≡ false
codes_less_trans [] t [] h k = refl
codes_less_trans [] t (c ∷ u) h k = refl
codes_less_trans (a ∷ s) [] u h k = cc
codes_less_trans (a ∷ s) (b ∷ t) [] h k = cc
codes_less_trans (a ∷ s) (b ∷ t) (c ∷ u) h k = ground (arith, codes_less_trans s t u)

pub str_less_trans :
    (s t u : String) → str_less t s ≡ false → str_less u t ≡ false → str_less u s ≡ false
unfolding str_less
str_less_trans s t u h k = codes_less_trans (codes s) (codes t) (codes u) h k

pub codes_less_irrefl : (s : List ℕ) → codes_less s s ≡ false
codes_less_irrefl [] = refl
codes_less_irrefl (a ∷ s) = ground (arith, codes_less_irrefl s)

pub str_less_irrefl : (s : String) → str_less s s ≡ false
unfolding str_less
str_less_irrefl s = codes_less_irrefl (codes s)

pub codes_less-asym : (s t : List ℕ) → codes_less s t ≡ true → codes_less t s ≡ false
codes_less-asym [] [] h = refl
codes_less-asym [] (b ∷ t) h = refl
codes_less-asym (a ∷ s) [] h = cc
codes_less-asym (a ∷ s) (b ∷ t) h = ground (arith, codes_less-asym s t)

pub str_less-asym : (s t : String) → str_less s t ≡ true → str_less t s ≡ false
unfolding str_less
str_less-asym s t h = codes_less-asym (codes s) (codes t) h

pub codes_less-Total : Total codes_less
codes_less-Total = record {
  asym = codes_less-asym;
  total = codes_less-total;
  trans = codes_less_trans;
}

pub str_less-Total : Total str_less
str_less-Total = record { asym = str_less-asym; total = str_less-total; trans = str_less_trans }
