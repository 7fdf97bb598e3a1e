-- ===== src/Prelude/Index.antt =====
-- Go's map[K][]V, built by `m[k] = append(m[k], v)`.
pub mod Entries
use mathlib.Core.Path.{◌≡◌, refl, sym, ap, ◌∙◌}
use mathlib.Core.Logic.{inl, inr}
use mathlib.Core.Option.{Option, none, some}
use mathlib.Core.List.{List, [], ◌∷◌, ◌++◌, append_assoc, append-nil}
use native.Mathlib.Omega.{arith}
use gwlint.Prelude.Tests.{if◌then◌else◌, Bool-cases, Eq, ◌==◌, or_else}
use gwlint.Prelude.Lists.{filter}

module _ {V : Type 0} where
  -- What a lookup finds after more values are pushed: a key is present once a value has it.
  abbrev pub extended : Option (List V) → List V → Option (List V)
  extended none [] = none
  extended none (v ∷ vs) = some (v ∷ vs)
  extended (some us) vs = some (us ++ vs)

  -- One value after the others, or before them.
  pub extended-push :
      (o : Option (List V)) (v : V) (vs : List V)
      → extended (some (or_else o [] ++ v ∷ [])) vs ≡ extended o (v ∷ vs)
  extended-push none v vs = refl
  extended-push (some us) v vs = ap some (append_assoc us (v ∷ []) vs)

  pub extended-nil : (o : Option (List V)) → o ≡ extended o []
  extended-nil none = refl
  extended-nil (some us) = ap some (sym (append-nil us))

module _ {K V : Type 0} ⦃e : Eq K⦄ where
  abbrev pub lookup : K → List (K × List V) → Option (List V)
  lookup k [] = none
  lookup k ((j, vs) ∷ m) = if j == k then some vs else lookup k m

  -- m[k], which is nil where the key is missing.
  abbrev pub get : K → List (K × List V) → List V
  get k m = or_else (lookup k m) []

  -- m[k] = append(m[k], v)
  abbrev pub push : K → V → List (K × List V) → List (K × List V)
  push k v [] = (k, v ∷ []) ∷ []
  push k v ((j, vs) ∷ m) = if j == k then (j, vs ++ v ∷ []) ∷ m else (j, vs) ∷ push k v m

  -- The loop that pushes every value under its key.
  abbrev pub push_all : (V → K) → List V → List (K × List V) → List (K × List V)
  push_all key [] m = m
  push_all key (v ∷ vs) m = push_all key vs (push (key v) v m)

  -- What a lookup finds after a push: the old values and the new one under its own key, and what
  -- was there under another.
  pub lookup-push :
      (k j : K) (v : V) (m : List (K × List V))
      → lookup k (push j v m) ≡ (if j == k then some (get k m ++ v ∷ []) else lookup k m)
  lookup-push k j v [] = ground arith
  lookup-push k j v ((i, vs) ∷ m) =
      ground (arith, lookup-push k j v m, e.beq_iff i j, e.beq_iff i k, e.beq_iff j k)

  -- The pushes under one key are a filter of the values, in order.
  pub lookup-push_all :
      (k : K) (key : V → K) (vs : List V) (m : List (K × List V))
      → lookup k (push_all key vs m) ≡ extended (lookup k m) (filter (λ v. key v == k) vs)
  lookup-push_all k key [] m = extended-nil (lookup k m)
  lookup-push_all k key (v ∷ vs) m = elim (Bool-cases (key v == k)) [
    | inl same ↦
        let found : lookup k (push (key v) v m) ≡ some (get k m ++ v ∷ []) =
          rw (lookup-push k (key v) v m, same) in
        lookup-push_all k key vs (push (key v) v m)
        ∙ rw (found, same) (extended-push (lookup k m) v _)
    | inr other ↦
        let found : lookup k (push (key v) v m) ≡ lookup k m =
          rw (lookup-push k (key v) v m, other) in
        lookup-push_all k key vs (push (key v) v m) ∙ rw (found, other)
  ]

-- Go's map[K]V, built by `m[k] = v`.
module _ {K V : Type 0} ⦃e : Eq K⦄ where
  abbrev pub value_of : K → List (K × V) → Option V
  value_of k [] = none
  value_of k ((j, v) ∷ m) = if j == k then some v else value_of k m

  abbrev pub put : K → V → List (K × V) → List (K × V)
  put k v [] = (k, v) ∷ []
  put k v ((j, w) ∷ m) = if j == k then (j, v) ∷ m else (j, w) ∷ put k v m

  pub value_of-put :
      (k j : K) (v : V) (m : List (K × V))
      → value_of k (put j v m) ≡ (if j == k then some v else value_of k m)
  value_of-put k j v [] = ground arith
  value_of-put k j v ((i, w) ∷ m) =
      ground (arith, value_of-put k j v m, e.beq_iff i j, e.beq_iff i k, e.beq_iff j k)
