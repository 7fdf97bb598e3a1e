-- ===== src/Checks/DuplicateRuleName/Repeated.antt =====
-- Which rule names duplicate-rule-name reports.
use mathlib.Core.Bool.{false≢true}
use gwlint.Prelude.{
  ℕ, ◌+◌, ◌≤◌, String, Option, none, some, List, [], ◌∷◌, true, not, ◌==◌, ◌&&◌, ◌||◌, ◌≡◌, ◌≢◌,
  ◌↔◌, inl, inr, refl, sym, ap, ◌∙◌, contains, Bool-cases, arith, if◌then◌else◌, Counts, count_of,
  increment, count_of-increment,
}
use gwlint.Prelude.Tests.{string_eq, ltb}
use gwlint.Checks.DuplicateRuleName.{count_name, count_names, repeated}

-- How many rules have the name.
abbrev pub occurrences : String → List (Option String) → ℕ
occurrences name [] = 0
occurrences name (none ∷ names) = occurrences name names
occurrences name (some n ∷ names) = (if n == name then 1 else 0) + occurrences name names

count_of-count_name :
    (name : String) (o : Option String) (m : Counts)
    → name ≢ ""
    → count_of name (count_name o m) ≡ count_of name m + occurrences name (o ∷ [])
count_of-count_name name none m h = ground arith
count_of-count_name name (some n) m h = elim (Bool-cases (n == "")) [
  | inl e ↦ rw e (ground (arith, string_eq.beq_iff n "", string_eq.beq_iff n name))
  | inr e ↦ rw e (count_of-increment name n m ∙ ground arith)
]

count_of-count_names :
    (name : String) (names : List (Option String)) (m : Counts)
    → name ≢ ""
    → count_of name (count_names names m) ≡ count_of name m + occurrences name names
unfolding count_names
count_of-count_names name [] m h = ground arith
count_of-count_names name (none ∷ names) m h = count_of-count_names name names m h
count_of-count_names name (some n ∷ names) m h =
    count_of-count_names name names (count_name (some n) m) h
    ∙ ground (arith, count_of-count_name name (some n) m h)

count_of-empty :
    (names : List (Option String)) (m : Counts) → count_of "" (count_names names m) ≡ count_of "" m
unfolding count_names
count_of-empty [] m = refl
count_of-empty (none ∷ names) m = count_of-empty names m
count_of-empty (some n ∷ names) m = elim (Bool-cases (n == "")) [
  | inl e ↦ rw e (count_of-empty names m)
  | inr e ↦ rw e (count_of-empty names (increment n m) ∙ count_of-increment "" n m ∙ ground arith)
]

contains-repeated :
    (counts : Counts) (name : String) (reported : List String) (names : List (Option String))
    → contains (repeated counts reported names) name ≡ (
        not (ltb (count_of name counts) 2)
        && not (contains reported name)
        && ltb 0 (occurrences name names))
unfolding repeated
contains-repeated counts name reported [] = ground arith
contains-repeated counts name reported (none ∷ names) = contains-repeated counts name reported names
contains-repeated counts name reported (some n ∷ names) =
    elim (Bool-cases (ltb (count_of n counts) 2 || contains reported n)) [
      | inl h ↦
          rw h (
            contains-repeated counts name reported names ∙ ground (arith, string_eq.beq_iff n name))
      | inr h ↦ rw h (
          ap (λ b. n == name || b) (contains-repeated counts name (n ∷ reported) names)
          ∙ ground (arith, string_eq.beq_iff n name))
    ]

named_iff :
    (k o : ℕ) (name : String)
    → name ≢ ""
    → k ≡ o
    → ((not (ltb k 2) && true && ltb 0 o) ≡ true) ↔ ((name ≢ "") × (2 ≤ o))
named_iff k o name h e = (λ p. (h, ground arith), λ (_, p). ground arith)

unnamed_iff :
    (k o : ℕ) (name : String)
    → name ≡ ""
    → k ≡ 0
    → ((not (ltb k 2) && true && ltb 0 o) ≡ true) ↔ ((name ≢ "") × (2 ≤ o))
unnamed_iff k o name h e = (λ p. ground arith, λ (named, _). absurd (named h))

-- A name is reported exactly when it is not empty and at least two rules have it.
pub repeated_iff :
    (name : String) (names : List (Option String))
    → (contains (repeated (count_names names []) [] names) name ≡ true)
      ↔ ((name ≢ "") × (2 ≤ occurrences name names))
repeated_iff name names =
    rw (contains-repeated (count_names names []) name [] names) (elim (Bool-cases (name == "")) [
      | inl e ↦
          let blank : name ≡ "" = (string_eq.beq_iff name "").0 e in
          unnamed_iff _ _ name blank
            (ap (λ n. count_of n (count_names names [])) blank ∙ count_of-empty names [])
      | inr e ↦
          let named : name ≢ "" = λ k. false≢true (sym e ∙ (string_eq.beq_iff name "").1 k) in
          let counted : count_of name (count_names names []) ≡ occurrences name names =
            count_of-count_names name names [] named ∙ ground arith in
          named_iff _ _ name named counted
    ])
