-- ===== src/Checks/ConflictingRouteMatch/Meeting.antt =====
-- Where two routes meet: a listener that both attach through, and that serves what both claim.
use mathlib.Core.Path.{subst}
use gwlint.Prelude.{
  String, some, List, [], ◌∷◌, Bool, true, false, ◌≡◌, ◌↔◌, ◌⊎◌, inl, inr, refl, sym, arith, filter,
  find?, contains, Any, Any-mono, filter_iff, value_of, Bool-cases, Option-cases, sort_strings,
  str_less,
}
use gwlint.Prelude.Tests.{string_eq}
use gwlint.Prelude.Distinct.{sort-Any}
use gwlint.GatewayApi.Hostnames.{hostnames_intersect}
use gwlint.GatewayApi.Parent.{ref_eq, Listener}
use gwlint.Checks.ConflictingRouteMatch.{
  Attachment, attachment_eq, contested_hostnames, serves, claimed_on, first_claim,
}

-- The listener serves a hostname that both routes claim: any, where neither names one.
abbrev pub Contests : List String → List String → Listener → Type 0
Contests mine theirs l =
    ((mine ≡ []) × (theirs ≡ []))
    ⊎ Any
        (λ h.
          (contains theirs h ≡ true)
          × ((h ≡ "") ⊎ (hostnames_intersect l.hostname (h ∷ []) ≡ true)))
        mine

serves_iff :
    (l : Listener) (h : String)
    → (serves l h ≡ true) ↔ ((h ≡ "") ⊎ (hostnames_intersect l.hostname (h ∷ []) ≡ true))
serves_iff l h = ground (arith, string_eq.beq_iff h "")

none_contained : (ms : List String) (P : String → Type 0) → Any (λ h. (false ≡ true) × P h) ms → ⊥
none_contained [] P h = absurd h
none_contained (m ∷ ms) P (inl h) = cc
none_contained (m ∷ ms) P (inr h) = none_contained ms P h

pub contested_iff :
    (mine theirs : List String) (l : Listener)
    → Any (λ h. serves l h ≡ true) (contested_hostnames mine theirs) ↔ Contests mine theirs l
unfolding contested_hostnames sort_strings
contested_iff [] [] l = (λ h. inl (refl, refl), λ h. inl refl)
contested_iff [] (t ∷ ts) l = (λ h. absurd h, elim [ inl (_, e) ↦ cc | inr h ↦ absurd h ])
contested_iff (m ∷ ms) [] l =
    (λ h. absurd h, elim [ inl (e, _) ↦ cc | inr h ↦ absurd (none_contained (m ∷ ms) _ h) ])
contested_iff (m ∷ ms) (t ∷ ts) l =
    let (sorted, unsorted) =
      sort-Any str_less (λ h. serves l h ≡ true) (filter (λ h. contains (t ∷ ts) h) (m ∷ ms)) in
    let (found, kept) = filter_iff (λ h. serves l h ≡ true) (λ h. contains (t ∷ ts) h) (m ∷ ms) in
    (
      λ h. inr (Any-mono (λ x (c, s). (c, (serves_iff l x).0 s)) (m ∷ ms) (found (sorted h))),
      elim [
        | inl (e, _) ↦ cc
        | inr h ↦ unsorted (kept (Any-mono (λ x (c, s). (c, (serves_iff l x).1 s)) (m ∷ ms) h))
      ],
    )

find_iff {ℓ} :
    {A : Type ℓ} (p : A → Bool) (xs : List A)
    → ((x : A) × (find? p xs ≡ some x)) ↔ Any (λ x. p x ≡ true) xs
find_iff p [] = (λ (x, e). cc, λ h. absurd h)
find_iff p (x ∷ xs) = elim (Bool-cases (p x)) [
  | inl e ↦ rw e (λ _. inl refl, λ _. (x, refl))
  | inr e ↦
      let (forth, back) = find_iff p xs in
      rw e (λ h. inr (forth h), elim [ inl h ↦ cc | inr h ↦ back h ])
]

module _ (mine : List (Attachment × Listener)) (hostnames : List String) where
  -- The listener of an attachment serves one of the hostnames.
  abbrev pub Claimed : Attachment → Type 0
  Claimed at = (l : Listener) × (value_of at mine ≡ some l) × Any (λ h. serves l h ≡ true) hostnames

  on_listener_iff :
      (at : Attachment) → ((h : String) × (claimed_on mine hostnames at ≡ some h)) ↔ Claimed at
  on_listener_iff at = elim (Option-cases (value_of at mine)) [
    | inl e ↦ rw (claimed_on, e) (λ (h, k). cc, λ (l, k, _). cc)
    | inr (l, e) ↦
        let (forth, back) = find_iff (serves l) hostnames in
        rw (claimed_on, e)
          (
            λ h. (l, refl, forth h),
            λ (m, k, h). back (
                let same : l ≡ m = (cc) in
                subst (λ n. Any (λ x. serves n x ≡ true) hostnames) (sym same) h),
          )
  ]

  pub first_claim_iff :
      (ats : List Attachment)
      → ((c : Attachment × String) × (first_claim mine hostnames ats ≡ some c)) ↔ Any Claimed ats
  first_claim_iff [] = (λ (c, e). cc, λ h. absurd h)
  first_claim_iff (at ∷ ats) = elim (Option-cases (claimed_on mine hostnames at)) [
    | inl e ↦
        let (forth, back) = first_claim_iff ats in
        rw (first_claim, e)
          (
            λ h. inr (forth h),
            elim [ inl k ↦ (let (h, found) = (on_listener_iff at).1 k in cc) | inr k ↦ back k ],
          )
    | inr (h, e) ↦
        rw (first_claim, e) (λ _. inl ((on_listener_iff at).0 (h, e)), λ _. ((at, h), refl))
  ]
