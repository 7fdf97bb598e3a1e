-- ===== src/Prelude/Search.antt =====
-- What the loops of `Lists` find: each search as a statement about some or every element.
use mathlib.Core.Path.{◌≡◌, refl, subst}
use mathlib.Core.Logic.{◌↔◌, ◌⊎◌, inl, inr}
use mathlib.Core.Bool.{Bool, true, false}
use mathlib.Core.Option.{Option, none, some}
use mathlib.Core.List.{List, [], ◌∷◌, ◌++◌, append_assoc}
use native.Mathlib.Omega.{arith}
use gwlint.Prelude.Tests.{Bool-cases, Eq, ◌==◌}
use gwlint.Prelude.Lists.{is_empty, any, all, filter, Any, All, flat_map, filter_map, consider}

module _ {ℓ} {A : Type ℓ} where
  pub Any-mono : {P Q : A → Type 0} → ((x : A) → P x → Q x) → (xs : List A) → Any P xs → Any Q xs
  Any-mono f [] h = elim h [ ]
  Any-mono f (x ∷ xs) (inl h) = inl (f x h)
  Any-mono f (x ∷ xs) (inr h) = inr (Any-mono f xs h)

  pub All-mono : {P Q : A → Type 0} → ((x : A) → P x → Q x) → (xs : List A) → All P xs → All Q xs
  All-mono f [] h = tt
  All-mono f (x ∷ xs) (h, hs) = (f x h, All-mono f xs hs)

  pub any_iff : (p : A → Bool) (xs : List A) → (any p xs ≡ true) ↔ Any (λ x. p x ≡ true) xs
  any_iff p [] = (λ h. cc, λ h. absurd h)
  any_iff p (x ∷ xs) = ground (arith, any_iff p xs)

  pub all_iff : (p : A → Bool) (xs : List A) → (all p xs ≡ true) ↔ All (λ x. p x ≡ true) xs
  all_iff p [] = (λ h. tt, λ h. refl)
  all_iff p (x ∷ xs) = ground (arith, all_iff p xs)

  pub any-eq-false : (p : A → Bool) (xs : List A) → (any p xs ≡ false) ↔ All (λ x. p x ≡ false) xs
  any-eq-false p [] = (λ h. tt, λ h. refl)
  any-eq-false p (x ∷ xs) = ground (arith, any-eq-false p xs)

  pub is_empty-eq-false : (xs : List A) → (is_empty xs ≡ false) ↔ Any (λ _. Unit) xs
  is_empty-eq-false [] = (λ h. cc, λ h. absurd h)
  is_empty-eq-false (x ∷ xs) = (λ _. inl tt, λ _. refl)

  pub Any-append : (P : A → Type 0) (xs ys : List A) → Any P (xs ++ ys) ↔ (Any P xs ⊎ Any P ys)
  Any-append P [] ys = (λ h. inr h, elim [ inl h ↦ absurd h | inr h ↦ h ])
  Any-append P (x ∷ xs) ys = (
    elim [
      | inl h ↦ inl (inl h)
      | inr h ↦ elim ((Any-append P xs ys).0 h) [ inl a ↦ inl (inr a) | inr b ↦ inr b ]
    ],
    elim [
      | inl h ↦ elim h [ inl a ↦ inl a | inr b ↦ inr ((Any-append P xs ys).1 (inl b)) ]
      | inr h ↦ inr ((Any-append P xs ys).1 (inr h))
    ],
  )

  pub All-append : (P : A → Type 0) (xs ys : List A) → All P xs → All P ys → All P (xs ++ ys)
  All-append P [] ys h k = k
  All-append P (x ∷ xs) ys (p, h) k = (p, All-append P xs ys h k)

  -- What holds of every element holds of the one that is found.
  pub Any_of_All : {P Q : A → Type 0} (xs : List A) → All P xs → Any Q xs → (x : A) × P x × Q x
  Any_of_All [] _ k = elim k [ ]
  Any_of_All (x ∷ xs) (p, h) (inl q) = (x, p, q)
  Any_of_All (x ∷ xs) (p, h) (inr k) = Any_of_All xs h k

  pub Any-holds : {P : A → Type 0} (xs : List A) → Any P xs → (x : A) × P x
  Any-holds [] h = absurd h
  Any-holds (x ∷ xs) (inl h) = (x, h)
  Any-holds (x ∷ xs) (inr h) = Any-holds xs h

  -- A condition that does not depend on the element comes out of the search, and so does a witness.
  pub Any-const :
      (P : A → Type 0) (Q : Type 0) (xs : List A) → Any (λ x. P x × Q) xs ↔ (Any P xs × Q)
  Any-const P Q [] = (λ h. absurd h, λ h. h.0)
  Any-const P Q (x ∷ xs) = (
    elim [ inl h ↦ (inl h.0, h.1) | inr h ↦ let (k, q) = (Any-const P Q xs).0 h in (inr k, q) ],
    λ (h, q). elim h [ inl k ↦ inl (k, q) | inr k ↦ inr ((Any-const P Q xs).1 (k, q)) ],
  )

  pub Any-witness :
      {Y : Type 0} (P : A → Y → Type 0) (xs : List A)
      → Any (λ x. (y : Y) × P x y) xs ↔ ((y : Y) × Any (λ x. P x y) xs)
  Any-witness P [] = (λ h. absurd h, λ (y, h). absurd h)
  Any-witness P (x ∷ xs) = (
    elim [ inl (y, h) ↦ (y, inl h) | inr h ↦ let (y, k) = (Any-witness P xs).0 h in (y, inr k) ],
    λ (y, h). elim h [ inl k ↦ inl (y, k) | inr k ↦ inr ((Any-witness P xs).1 (y, k)) ],
  )

  pub filter_iff :
      (P : A → Type 0) (p : A → Bool) (xs : List A)
      → Any P (filter p xs) ↔ Any (λ x. (p x ≡ true) × P x) xs
  filter_iff P p [] = (λ h. h, λ h. h)
  filter_iff P p (x ∷ xs) = elim (Bool-cases (p x)) [
    | inl e ↦ rw e (
      elim [ inl h ↦ inl (refl, h) | inr h ↦ inr ((filter_iff P p xs).0 h) ],
      elim [ inl h ↦ inl h.1 | inr h ↦ inr ((filter_iff P p xs).1 h) ],
    )
    | inr e ↦
        rw e (
          λ h. inr ((filter_iff P p xs).0 h),
          elim [ inl h ↦ cc | inr h ↦ (filter_iff P p xs).1 h ],
        )
  ]

module _ {ℓ κ} {A : Type ℓ} {B : Type κ} where
  pub flat_map-append :
      (f : A → List B) (xs ys : List A) → flat_map f (xs ++ ys) ≡ flat_map f xs ++ flat_map f ys
  flat_map-append f [] ys = refl
  flat_map-append f (x ∷ xs) ys = simp (flat_map-append f xs ys, append_assoc)

  pub flat_map_iff :
      (P : B → Type 0) (f : A → List B) (xs : List A)
      → Any P (flat_map f xs) ↔ Any (λ x. Any P (f x)) xs
  flat_map_iff P f [] = (λ h. h, λ h. h)
  flat_map_iff P f (x ∷ xs) =
      let split = Any-append P (f x) (flat_map f xs) in
      (
        λ h. elim (split.0 h) [ inl a ↦ inl a | inr b ↦ inr ((flat_map_iff P f xs).0 b) ],
        elim [ inl a ↦ split.1 (inl a) | inr b ↦ split.1 (inr ((flat_map_iff P f xs).1 b)) ],
      )

filter_map_found :
    {B : Type 0} (P : B → Type 0) (o : Option B) (rest : List B) {More : Type 0}
    → (Any P rest ↔ More)
    → Any P (consider o rest) ↔ (((y : B) × (o ≡ some y) × P y) ⊎ More)
filter_map_found P none rest ih = (λ h. inr (ih.0 h), elim [ inl (y, e, h) ↦ cc | inr k ↦ ih.1 k ])
filter_map_found P (some z) rest ih = (
  elim [ inl h ↦ inl (z, refl, h) | inr h ↦ inr (ih.0 h) ],
  elim [ inl (y, e, h) ↦ inl (subst P (cc) h) | inr k ↦ inr (ih.1 k) ],
)

module _ {ℓ} {A : Type ℓ} {B : Type 0} where
  pub filter_map_iff :
      (P : B → Type 0) (f : A → Option B) (xs : List A)
      → Any P (filter_map f xs) ↔ Any (λ x. (y : B) × (f x ≡ some y) × P y) xs
  filter_map_iff P f [] = (λ h. h, λ h. h)
  filter_map_iff P f (x ∷ xs) = filter_map_found P (f x) (filter_map f xs) (filter_map_iff P f xs)

module _ {ℓ} {A : Type ℓ} ⦃e : Eq A⦄ where
  -- Whether a set or a slice has the element.
  abbrev pub contains : List A → A → Bool
  contains xs a = any (λ x. x == a) xs

module _ {ℓ} {A : Type ℓ} {B : Type 0} where
  -- A loop reports a finding exactly when the body reports it for some element.
  pub filter_map_says :
      (f : A → Option B) (Q : A → B → Type 0)
      → ((x : A) (b : B) → (f x ≡ some b) ↔ Q x b)
      → (b : B) (xs : List A) → Any (λ y. y ≡ b) (filter_map f xs) ↔ Any (λ x. Q x b) xs
  filter_map_says f Q says b xs =
      let (found, kept) = filter_map_iff (λ y. y ≡ b) f xs in
      (
        λ h.
            Any-mono (λ x (y, e, same). (says x b).0 (subst (λ z. f x ≡ some z) same e)) xs
              (found h),
        λ h. kept (Any-mono (λ x q. (b, (says x b).1 q, refl)) xs h),
      )

  -- It reports something exactly when the body does for some element.
  pub filter_map_nonempty :
      (f : A → Option B) (P : A → Type 0)
      → ((x : A) → ((b : B) × (f x ≡ some b)) ↔ P x)
      → (xs : List A) → (is_empty (filter_map f xs) ≡ false) ↔ Any P xs
  filter_map_nonempty f P says xs =
      let (found, kept) = filter_map_iff (λ _. Unit) f xs in
      let (some_y, nonempty) = is_empty-eq-false (filter_map f xs) in
      (
        λ h. Any-mono (λ x (y, e, _). (says x).0 (y, e)) xs (found (some_y h)),
        λ h. nonempty (kept (Any-mono (λ x p. let (y, e) = (says x).1 p in (y, e, tt)) xs h)),
      )

module _ {A : Type 0} ⦃e : Eq A⦄ where
  -- A search that finds something finds a member.
  pub any-contains :
      (p : A → Bool) (xs : List A)
      → (any p xs ≡ true) ↔ ((a : A) × (contains xs a ≡ true) × (p a ≡ true))
  any-contains p [] = (λ h. cc, λ (a, h, _). cc)
  any-contains p (x ∷ xs) = elim (Bool-cases (p x)) [
    | inl h ↦ (λ _. (x, rw ((e.beq_iff x x).1 refl) refl, h), λ _. rw h refl)
    | inr h ↦ rw h (
      λ k. let (a, member, found) = (any-contains p xs).0 k in (a, ground arith, found),
      λ (a, member, found). elim (Bool-cases (x == a)) [
        | inl same ↦ let eq = (e.beq_iff x a).0 same in cc
        | inr other ↦ (any-contains p xs).1 (a, ground arith, found)
      ],
    )
  ]
