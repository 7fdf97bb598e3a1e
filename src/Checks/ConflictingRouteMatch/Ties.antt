-- ===== src/Checks/ConflictingRouteMatch/Ties.antt =====
-- When conflicting-route-match says that two routes tie.
use gwlint.Prelude.{
  ℕ, Option, none, some, List, [], ◌∷◌, true, false, ◌≡◌, ◌↔◌, ◌⊎◌, inl, inr, refl, sym, ◌∙◌, map,
  contains, Any, Any-mono, All, codes_less, Bool-cases,
}
use gwlint.Prelude.Tests.{string_eq}
use gwlint.Prelude.Ordering.{codes_less-Total, codes_less_irrefl}
use gwlint.Prelude.Codes.{codes_eq}
use gwlint.GatewayApi.Parent.{ref_eq}
use gwlint.GatewayApi.RouteMatch.{HttpMatch}
use gwlint.Checks.ConflictingRouteMatch.{better, best_match, identical_match}

-- What the loop does with one match.
skips :
    (seen : List (List ℕ)) (best : Option HttpMatch) (n : HttpMatch) (ns : List HttpMatch)
    → contains seen n.key ≡ false
    → best_match seen best (n ∷ ns) ≡ best_match seen best ns
unfolding best_match
skips seen best n ns other = rw other refl

takes :
    (seen : List (List ℕ)) (best : Option HttpMatch) (n : HttpMatch) (ns : List HttpMatch)
    → contains seen n.key ≡ true
    → better n best ≡ true
    → best_match seen best (n ∷ ns) ≡ best_match seen (some n) ns
unfolding best_match
takes seen best n ns shared good = rw (shared, good) refl

keeps :
    (seen : List (List ℕ)) (best : Option HttpMatch) (n : HttpMatch) (ns : List HttpMatch)
    → contains seen n.key ≡ true
    → better n best ≡ false
    → best_match seen best (n ∷ ns) ≡ best_match seen best ns
unfolding best_match
keeps seen best n ns shared worse = rw (shared, worse) refl

still :
    {A : Type 0} {P : Type 0} (Q : A → Type 0) (x : A) (xs : List A)
    → P ⊎ Any Q xs
    → P ⊎ Any Q (x ∷ xs)
still Q x xs h = elim h [ inl p ↦ inl p | inr q ↦ inr (inr q) ]

-- The match that is found is the best so far or one that the other route has too.
found_among :
    (seen : List (List ℕ)) (best : Option HttpMatch) (ms : List HttpMatch) (m : HttpMatch)
    → best_match seen best ms ≡ some m
    → (best ≡ some m) ⊎ Any (λ n. (n ≡ m) × (contains seen n.key ≡ true)) ms
unfolding best_match
found_among seen best [] m h = inl h
found_among seen best (n ∷ ns) m h = elim (Bool-cases (contains seen n.key)) [
  | inr other ↦
      still (λ k. (k ≡ m) × (contains seen k.key ≡ true)) n ns
        (found_among seen best ns m (sym (skips seen best n ns other) ∙ h))
  | inl shared ↦ elim (Bool-cases (better n best)) [
    | inl good ↦
        elim (found_among seen (some n) ns m (sym (takes seen best n ns shared good) ∙ h)) [
          | inl e ↦ inr (inl (cc, shared))
          | inr k ↦ inr (inr k)
        ]
    | inr worse ↦
        still (λ k. (k ≡ m) × (contains seen k.key ≡ true)) n ns
          (found_among seen best ns m (sym (keeps seen best n ns shared worse) ∙ h))
  ]
]

-- The best so far is not before the match that is found.
abbrev Reached : Option HttpMatch → HttpMatch → Type 0
Reached none m = Unit
Reached (some b) m = codes_less b.key m.key ≡ false

Reached-better :
    (n : HttpMatch) (best : Option HttpMatch) (m : HttpMatch)
    → better n best ≡ true
    → codes_less n.key m.key ≡ false
    → Reached best m
Reached-better n none m good h = tt
Reached-better n (some b) m good h =
    codes_less-Total.trans m.key n.key b.key h (codes_less-Total.asym n.key b.key good)

Reached-worse :
    (n : HttpMatch) (best : Option HttpMatch) (m : HttpMatch)
    → better n best ≡ false
    → Reached best m
    → codes_less n.key m.key ≡ false
Reached-worse n none m worse h = cc
Reached-worse n (some b) m worse h = codes_less-Total.trans m.key b.key n.key h worse

-- No match that the other route has too is before the one that is found.
found_least :
    (seen : List (List ℕ)) (best : Option HttpMatch) (ms : List HttpMatch) (m : HttpMatch)
    → best_match seen best ms ≡ some m
    → Reached best m × All (λ n. (contains seen n.key ≡ true) → codes_less n.key m.key ≡ false) ms
unfolding best_match
found_least seen none [] m h = (tt, tt)
found_least seen (some b) [] m h = (let e : b ≡ m = (cc) in rw e (codes_less_irrefl m.key), tt)
found_least seen best (n ∷ ns) m h = elim (Bool-cases (contains seen n.key)) [
  | inr other ↦
      let (reached, rest) = found_least seen best ns m (sym (skips seen best n ns other) ∙ h) in
      (reached, (λ shared. cc, rest))
  | inl shared ↦ elim (Bool-cases (better n best)) [
    | inl good ↦
        let (reached, rest) =
          found_least seen (some n) ns m (sym (takes seen best n ns shared good) ∙ h) in
        (Reached-better n best m good reached, (λ _. reached, rest))
    | inr worse ↦
        let (reached, rest) =
          found_least seen best ns m (sym (keeps seen best n ns shared worse) ∙ h) in
        (reached, (λ _. Reached-worse n best m worse reached, rest))
  ]
]

has_found :
    (seen : List (List ℕ)) (b : HttpMatch) (ms : List HttpMatch)
    → (m : HttpMatch) × (best_match seen (some b) ms ≡ some m)
unfolding best_match
has_found seen b [] = (b, refl)
has_found seen b (n ∷ ns) = elim (Bool-cases (contains seen n.key)) [
  | inr other ↦ let (m, e) = has_found seen b ns in (m, skips seen (some b) n ns other ∙ e)
  | inl shared ↦ elim (Bool-cases (better n (some b))) [
    | inl good ↦ let (m, e) = has_found seen n ns in (m, takes seen (some b) n ns shared good ∙ e)
    | inr worse ↦ let (m, e) = has_found seen b ns in (m, keeps seen (some b) n ns shared worse ∙ e)
  ]
]

finds :
    (seen : List (List ℕ)) (ms : List HttpMatch)
    → Any (λ n. contains seen n.key ≡ true) ms
    → (m : HttpMatch) × (best_match seen none ms ≡ some m)
unfolding best_match
finds seen [] h = absurd h
finds seen (n ∷ ns) h = elim (Bool-cases (contains seen n.key)) [
  | inr other ↦ elim h [
    | inl shared ↦ cc
    | inr k ↦ let (m, e) = finds seen ns k in (m, skips seen none n ns other ∙ e)
  ]
  | inl shared ↦ let (m, e) = has_found seen n ns in (m, takes seen none n ns shared refl ∙ e)
]

module _ (mine theirs : List HttpMatch) where
  -- A match of the other route has the key too.
  abbrev pub Shared : HttpMatch → Type 0
  Shared n = contains (map (λ m. m.key) theirs) n.key ≡ true

  -- Two routes have an identical match exactly when some match of the first has the key of a match
  -- of the second.
  pub identical_match_iff :
      ((m : HttpMatch) × (identical_match mine theirs ≡ some m)) ↔ Any Shared mine
  unfolding identical_match
  identical_match_iff = (
    λ (m, e). elim (found_among (map (λ n. n.key) theirs) none mine m e) [
      | inl k ↦ cc
      | inr k ↦ Any-mono (λ n (_, shared). shared) mine k
    ],
    λ h. finds (map (λ m. m.key) theirs) mine h,
  )

  -- The identical match of two routes is a match of the first whose key some match of the second
  -- has, and no such match has a key before its.
  pub identical_match_least :
      (m : HttpMatch)
      → identical_match mine theirs ≡ some m
      → Any (λ n. (n ≡ m) × Shared n) mine
        × All (λ n. Shared n → codes_less n.key m.key ≡ false) mine
  unfolding identical_match
  identical_match_least m e = (
    elim (found_among (map (λ n. n.key) theirs) none mine m e) [ inl k ↦ cc | inr k ↦ k ],
    (found_least (map (λ n. n.key) theirs) none mine m e).1,
  )
