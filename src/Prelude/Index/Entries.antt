-- ===== src/Prelude/Index/Entries.antt =====
-- The entries of Go's map[K][]V, over which a loop ranges: one for each key that a value has, with
-- the values of that key.
use mathlib.Core.Path.{◌≡◌, refl, sym, ap, ◌∙◌, subst}
use mathlib.Core.Logic.{◌↔◌, inl, inr}
use mathlib.Core.Bool.{true, false, ◌||◌}
use mathlib.Core.Option.{none, some}
use mathlib.Core.List.{List, [], ◌∷◌, map}
use native.Mathlib.Omega.{arith}
use gwlint.Prelude.Tests.{Bool-cases, Eq, ◌==◌, or_else, ==_refl}
use gwlint.Prelude.Lists.{filter, any, Any}
use gwlint.Prelude.Search.{contains, Any-mono, any_iff}
use gwlint.Prelude.Index.{lookup, get, push, push_all, extended, lookup-push_all}
use gwlint.Prelude.Distinct.{Any-contains, Unrepeated}
use gwlint.Prelude.Pairs.{
  several, SomePair, SomePair-mono, SomePair-witness, filter-SomePair, several_iff,
}

module _ {K V : Type 0} ⦃e : Eq K⦄ where
  abbrev pub keys : List (K × List V) → List K
  keys m = map (λ entry. entry.0) m

  contains-push :
      (k j : K) (v : V) (m : List (K × List V))
      → contains (keys (push k v m)) j ≡ (k == j || contains (keys m) j)
  contains-push k j v [] = ground arith
  contains-push k j v ((i, vs) ∷ m) =
      ground (arith, contains-push k j v m, e.beq_iff i k, e.beq_iff i j, e.beq_iff k j)

  push-Unrepeated :
      (k : K) (v : V) (m : List (K × List V)) → Unrepeated (keys m) → Unrepeated (keys (push k v m))
  push-Unrepeated k v [] h = (refl, tt)
  push-Unrepeated k v ((i, vs) ∷ m) (h, hs) = elim (Bool-cases (i == k)) [
    | inl same ↦ rw same (h, hs)
    | inr other ↦
        let fresh : contains (keys (push k v m)) i ≡ false =
          ground (arith, contains-push k i v m, e.beq_iff i k, e.beq_iff k i) in
        rw other (fresh, push-Unrepeated k v m hs)
  ]

  pub contains-push_all :
      (key : V → K) (j : K) (vs : List V) (m : List (K × List V))
      → contains (keys (push_all key vs m)) j ≡ (any (λ v. key v == j) vs || contains (keys m) j)
  contains-push_all key j [] m = refl
  contains-push_all key j (v ∷ vs) m =
      contains-push_all key j vs (push (key v) v m) ∙ ground (arith, contains-push (key v) j v m)

  pub push_all-Unrepeated :
      (key : V → K) (vs : List V) (m : List (K × List V))
      → Unrepeated (keys m)
      → Unrepeated (keys (push_all key vs m))
  push_all-Unrepeated key [] m h = h
  push_all-Unrepeated key (v ∷ vs) m h =
      push_all-Unrepeated key vs (push (key v) v m) (push-Unrepeated (key v) v m h)

  -- A key that an entry has is one that the map has.
  keys_of_Any :
      (k : K) (m : List (K × List V)) → Any (λ entry. entry.0 ≡ k) m → contains (keys m) k ≡ true
  keys_of_Any k [] h = absurd h
  keys_of_Any k ((j, vs) ∷ m) (inl h) = let same = (e.beq_iff j k).1 h in rw same refl
  keys_of_Any k ((j, vs) ∷ m) (inr h) = let rest = keys_of_Any k m h in ground arith

  -- Something holds of an entry exactly when it holds of a key and what a lookup finds under it.
  pub entries_iff :
      (P : K → List V → Type 0) (m : List (K × List V))
      → Unrepeated (keys m)
      → Any (λ entry. P entry.0 entry.1) m
        ↔ ((k : K) × (vs : List V) × (lookup k m ≡ some vs) × P k vs)
  entries_iff P [] h = (λ k. absurd k, λ (k, vs, found, _). cc)
  entries_iff P ((j, ws) ∷ m) (fresh, hs) = (
    elim [
      | inl p ↦ (j, ws, rw (==_refl j) refl, p)
      | inr h ↦
          let (k, vs, found, p) = (entries_iff P m hs).0 h in
          (
            k,
            vs,
            elim (Bool-cases (j == k)) [
              | inl same ↦
                  let there = keys_of_Any k m (
                    Any-mono (λ entry (eq, _). eq) m
                      ((entries_iff (λ i us. (i ≡ k) × (us ≡ vs)) m hs).1
                        (k, vs, found, (refl, refl)))) in
                  let eq = (e.beq_iff j k).0 same in cc
              | inr other ↦ rw other found
            ],
            p,
          )
    ],
    λ (k, vs, found, p). elim (Bool-cases (j == k)) [
      | inl same ↦
          let eq = (e.beq_iff j k).0 same in
          let here : ws ≡ vs = ground arith in
          inl (subst (λ i. P i ws) (sym eq) (subst (λ us. P k us) (sym here) p))
      | inr other ↦
          let later : lookup k m ≡ some vs = ground arith in
          inr ((entries_iff P m hs).1 (k, vs, later, p))
    ],
  )

module _ {K V : Type 0} ⦃e : Eq K⦄ (key : V → K) (vs : List V) where
  -- The keys are those that a value has.
  pub keys-Any : (P : K → Type 0) → Any P (keys (push_all key vs [])) ↔ Any (λ v. P (key v)) vs
  keys-Any P = (
    λ h.
        let (k, member, p) = (Any-contains P (keys (push_all key vs []))).0 h in
        let held : any (λ v. key v == k) vs ≡ true =
          ground (arith, contains-push_all key k vs []) in
        Any-mono (λ v same. subst P (sym ((e.beq_iff (key v) k).0 same)) p) vs
          ((any_iff (λ v. key v == k) vs).0 held),
    λ h. from vs h (λ k held. ground (arith, contains-push_all key k vs [])),
  )
    where
      from :
          (us : List V)
          → Any (λ v. P (key v)) us
          → ((k : K)
              → any (λ v. key v == k) us ≡ true
              → contains (keys (push_all key vs [])) k ≡ true)
          → Any P (keys (push_all key vs []))
      from [] h inside = absurd h
      from (u ∷ us) (inl p) inside =
          (Any-contains P _).1 (key u, inside (key u) (rw (==_refl (key u)) refl), p)
      from (u ∷ us) (inr h) inside = from us h (λ k held. inside k (ground arith))

  -- Under a key are the values that have it.
  pub get-push_all : (k : K) → get k (push_all key vs []) ≡ filter (λ v. key v == k) vs
  get-push_all k = ap (λ o. or_else o []) (lookup-push_all k key vs []) ∙ nil_or _
    where
      nil_or : (us : List V) → or_else (extended none us) [] ≡ us
      nil_or [] = refl
      nil_or (u ∷ us) = refl

  -- A key has several values exactly when two values have it.
  pub several_entries :
      Any (λ entry. several entry.1 ≡ true) (push_all key vs [])
      ↔ SomePair (λ v w. key v ≡ key w) vs
  several_entries = (
    λ h.
        let (k, us, found, more) = entries.0 h in
        let eq : us ≡ filter (λ v. key v == k) vs =
          ap (λ o. or_else o []) (sym found) ∙ get-push_all k in
        together k ((several_iff _).0 (ap several (sym eq) ∙ more)),
    λ h.
        let (k, pair) =
          SomePair-witness (λ k v w. (key v ≡ k) × (key w ≡ k)) vs
            (SomePair-mono (λ v w eq. (key v, (refl, sym eq))) vs h) in
        let more = (several_iff _).1 (
          (filter-SomePair (λ v w. Unit) (λ v. key v == k) vs).1 (
            SomePair-mono (λ v w (a, b). ((e.beq_iff (key v) k).1 a, (e.beq_iff (key w) k).1 b, tt))
              vs pair)) in
        entries.1
          (k, filter (λ v. key v == k) vs, under k _ (lookup-push_all k key vs []) more, more),
  )
    where
      entries : Any (λ entry. several entry.1 ≡ true) (push_all key vs []) ↔ (
          (k : K) × (us : List V) × (lookup k (push_all key vs []) ≡ some us) × (several us ≡ true))
      entries = entries_iff (λ k us. several us ≡ true) _ (push_all-Unrepeated key vs [] tt)

      together :
          (k : K)
          → SomePair (λ v w. Unit) (filter (λ v. key v == k) vs)
          → SomePair (λ v w. key v ≡ key w) vs
      together k h =
          SomePair-mono
            (λ v w (a, b, _). (e.beq_iff (key v) k).0 a ∙ sym ((e.beq_iff (key w) k).0 b)) vs
            ((filter-SomePair (λ v w. Unit) (λ v. key v == k) vs).0 h)

      under :
          (k : K) (us : List V)
          → lookup k (push_all key vs []) ≡ extended none us
          → several us ≡ true
          → lookup k (push_all key vs []) ≡ some us
      under k [] found more = cc
      under k (u ∷ us) found more = found
