-- ===== src/Checks/MissingCertificateGrant/Permission.antt =====
-- Which listeners missing-certificate-grant reports.
use mathlib.Core.Bool.{false≢true}
use gwlint.Prelude.{
  String, Option, none, some, List, [], ◌∷◌, Bool, true, false, ◌==◌, ◌≡◌, ◌≢◌, ◌↔◌, ◌⊎◌, inl, inr,
  refl, ap, sym, ◌∙◌, arith, is_empty, filter_map, any, any_iff, Any, Any-mono, filter_map_nonempty,
  differs_iff, if◌then◌else◌, Diagnostic,
}
use gwlint.Prelude.Tests.{string_eq, eq-false_of_ne, some_past}
use gwlint.ObjectKinds
use gwlint.Api.{LintContext, Object, ReferenceGrantFrom, ReferenceGrantTo}
use gwlint.GatewayApi.Parent.{ObjectRef}
use gwlint.GatewayApi.Certificate.{
  CertificateRef, certificate_secrets, terminating_certificate_refs,
}
use gwlint.Checks.MissingCertificateGrant.{
  Grant, reference_grants, grant_allows_from, grant_allows_to, permits, permitted, described, judge,
  check_func, allows_entry, message, names,
}

-- The entry of a grant's `from` stands for the owner of the listener.
abbrev pub FromOwner : ObjectRef → ReferenceGrantFrom → Type 0
FromOwner owner f =
    (f.group ≡ ObjectKinds.group_name) × (f.kind ≡ owner.kind) × (f.namespace ≡ owner.namespace)

-- The entry of a grant's `to` stands for the certificate: every one of the kind, or the one named.
abbrev pub ToCertificate : CertificateRef → ReferenceGrantTo → Type 0
ToCertificate ref t =
    (t.group ≡ ref.group) × (t.kind ≡ ref.kind) × ((t.name ≡ none) ⊎ (t.name ≡ some ref.name))

abbrev pub Permits : CertificateRef → Grant → Type 0
Permits ref g =
    (g.namespace ≡ ref.namespace)
    × Any (FromOwner ref.owner) g.spec.from
    × Any (ToCertificate ref) g.spec.to

-- The manifest set shows something of the namespace: a certificate or a grant.
abbrev pub Described : LintContext → String → Type 0
Described ctx namespace =
    Any (λ ref. ref.namespace ≡ namespace) (certificate_secrets ctx)
    ⊎ Any (λ g. g.namespace ≡ namespace) (reference_grants ctx)

-- A test that stands for a statement about each element stands for one about some element.
Any-tested {ℓ} :
    {A : Type ℓ} (p : A → Bool) (P : A → Type 0)
    → ((x : A) → (p x ≡ true) ↔ P x)
    → (xs : List A) → (any p xs ≡ true) ↔ Any P xs
Any-tested p P says xs =
    let (found, kept) = any_iff p xs in
    (
      λ h. Any-mono (λ x e. (says x).0 e) xs (found h),
      λ h. kept (Any-mono (λ x e. (says x).1 e) xs h),
    )

from_iff :
    (owner : ObjectRef) (from : List ReferenceGrantFrom)
    → (grant_allows_from from owner ≡ true) ↔ Any (FromOwner owner) from
unfolding grant_allows_from
from_iff owner from =
    Any-tested _ (FromOwner owner)
      (λ f. ground (
        arith,
        string_eq.beq_iff f.group ObjectKinds.group_name,
        string_eq.beq_iff f.kind owner.kind,
        string_eq.beq_iff f.namespace owner.namespace,
      ))
      from

names_iff :
    (o : Option String) (name : String) → (names o name ≡ true) ↔ ((o ≡ none) ⊎ (o ≡ some name))
names_iff none name = (λ _. inl refl, λ _. refl)
names_iff (some n) name = (
  λ h. inr (ap some ((string_eq.beq_iff n name).0 h)),
  elim [ inl e ↦ cc | inr e ↦ (let same : n ≡ name = (cc) in (string_eq.beq_iff n name).1 same) ],
)

entry_iff :
    (ref : CertificateRef) (t : ReferenceGrantTo)
    → (allows_entry t ref ≡ true) ↔ ToCertificate ref t
entry_iff ref t =
    let named = names_iff t.name ref.name in
    ground (arith, string_eq.beq_iff t.group ref.group, string_eq.beq_iff t.kind ref.kind)

to_iff :
    (ref : CertificateRef) (to : List ReferenceGrantTo)
    → (grant_allows_to to ref ≡ true) ↔ Any (ToCertificate ref) to
unfolding grant_allows_to
to_iff ref to = Any-tested _ (ToCertificate ref) (entry_iff ref) to

permits_iff : (ref : CertificateRef) (g : Grant) → (permits ref g ≡ true) ↔ Permits ref g
permits_iff ref g =
    let from = from_iff ref.owner g.spec.from in
    let to = to_iff ref g.spec.to in ground (arith, string_eq.beq_iff g.namespace ref.namespace)

described_iff :
    (ctx : LintContext) (namespace : String)
    → (described ctx (reference_grants ctx) namespace ≡ true) ↔ Described ctx namespace
unfolding described
described_iff ctx namespace =
    let secrets =
      Any-tested _ _ (λ ref. string_eq.beq_iff ref.namespace namespace) (certificate_secrets ctx) in
    let grants =
      Any-tested _ _ (λ g. string_eq.beq_iff g.namespace namespace) (reference_grants ctx) in
    ground arith

-- A listener's reference is reported exactly when it is to another namespace, of which the set shows
-- something and where no grant permits it.
abbrev pub Forbidden : LintContext → CertificateRef → Type 0
Forbidden ctx ref =
    (ref.namespace ≢ ref.owner.namespace)
    × Described ctx ref.namespace
    × ¬ Any (Permits ref) (reference_grants ctx)

judge_iff :
    (ctx : LintContext) (ref : CertificateRef)
    → ((d : Diagnostic) × (judge ctx (reference_grants ctx) ref ≡ some d)) ↔ Forbidden ctx ref
unfolding judge permitted
judge_iff ctx ref =
    let known = described_iff ctx ref.namespace in
    let granted = Any-tested (permits ref) (Permits ref) (permits_iff ref) (reference_grants ctx) in
    let guards =
      some_past (ref.namespace == ref.owner.namespace)
        (described ctx (reference_grants ctx) ref.namespace)
        (any (permits ref) (reference_grants ctx)) (message ref) in
    let (differ, same) = differs_iff ref.namespace ref.owner.namespace in
    (
      λ h.
          let (a, b, c) = guards.0 h in
          (differ a, known.0 b, λ k. false≢true (sym c ∙ granted.1 k)),
      λ (a, b, c). guards.1 (same a, known.1 b, eq-false_of_ne (λ k. c (granted.0 k))),
    )

pub missing_certificate_grant_iff :
    (ctx : LintContext) (object : Object)
    → (is_empty (check_func ctx object) ≡ false)
      ↔ Any (Forbidden ctx) (terminating_certificate_refs object.k8s_object)
unfolding check_func
missing_certificate_grant_iff ctx object = over (terminating_certificate_refs object.k8s_object)
  where
    over :
        (refs : List CertificateRef)
        → (is_empty
              (if is_empty refs then [] else filter_map (judge ctx (reference_grants ctx)) refs)
            ≡ false)
          ↔ Any (Forbidden ctx) refs
    over [] = (λ h. cc, λ h. absurd h)
    over (r ∷ rs) =
        filter_map_nonempty (judge ctx (reference_grants ctx)) (Forbidden ctx) (judge_iff ctx)
          (r ∷ rs)
