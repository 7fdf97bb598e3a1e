-- ===== src/Checks/MissingCertificateGrant.antt =====
-- pkg/templates/missingcertificategrant
pub mod Permission
use gwlint.Prelude.{
  String, Option, none, some, List, [], ◌∷◌, Bool, true, false, not, ◌==◌, ◌&&◌, ◌||◌, any,
  is_empty, filter_map, if◌then◌else◌, Diagnostic, lit, quoted,
}
use gwlint.Prelude.Tests.{string_eq}
use gwlint.Api.{
  LintContext, Object, K8sObject, ReferenceGrant, ReferenceGrantSpec, ReferenceGrantFrom,
  ReferenceGrantTo, reference_grant_v1, reference_grant_v1beta1, reference_grant_v1alpha2,
}
use gwlint.ObjectKinds
use gwlint.GatewayApi.Parent.{ObjectRef}
use gwlint.GatewayApi.Certificate.{
  CertificateRef, terminating_certificate_refs, certificate_secrets,
}

pub record Grant : Type 0 where
  pub namespace : String
  pub spec : ReferenceGrantSpec

abbrev grant_of : ReferenceGrant → Grant
grant_of rg = record { namespace = rg.meta.namespace; spec = rg.spec }

-- The type switch of the loop of referenceGrants.
abbrev pub as_grant : K8sObject → Option Grant
as_grant (reference_grant_v1 rg) = some (grant_of rg)
as_grant (reference_grant_v1beta1 rg) = some (grant_of rg)
as_grant (reference_grant_v1alpha2 rg) = some (grant_of rg)
as_grant _ = none

unfoldable pub reference_grants : LintContext → List Grant
reference_grants ctx = filter_map (λ obj. as_grant obj.k8s_object) ctx.objects

unfoldable pub grant_allows_from : List ReferenceGrantFrom → ObjectRef → Bool
grant_allows_from from owner =
    any
      (λ f.
        f.group == ObjectKinds.group_name
        && (f.kind == owner.kind && f.namespace == owner.namespace))
      from

abbrev pub names : Option String → String → Bool
names none name = true
names (some n) name = n == name

-- The body of the loop of grantAllowsTo.
abbrev pub allows_entry : ReferenceGrantTo → CertificateRef → Bool
allows_entry t ref =
    if not (t.group == ref.group) || not (t.kind == ref.kind) then false else names t.name ref.name

unfoldable pub grant_allows_to : List ReferenceGrantTo → CertificateRef → Bool
grant_allows_to to ref = any (λ t. allows_entry t ref) to

-- The body of the loop of permitted.
abbrev pub permits : CertificateRef → Grant → Bool
permits ref g =
    if not (g.namespace == ref.namespace)
    then false
    else grant_allows_from g.spec.from ref.owner && grant_allows_to g.spec.to ref

unfoldable pub permitted : List Grant → CertificateRef → Bool
permitted grants ref = any (permits ref) grants

-- Whether the map of describedNamespaces has the namespace.
unfoldable pub described : LintContext → List Grant → String → Bool
described ctx grants namespace =
    any (λ ref. ref.namespace == namespace) (certificate_secrets ctx)
    || any (λ g. g.namespace == namespace) grants

abbrev pub message : CertificateRef → Diagnostic
message ref = record {
  message =
      lit ref.owner.kind
      ∷ lit " "
      ∷ quoted ref.owner.name
      ∷ lit " listener "
      ∷ quoted ref.listener
      ∷ lit " terminates TLS with "
      ∷ lit ref.kind
      ∷ lit " "
      ∷ quoted ref.name
      ∷ lit " in namespace "
      ∷ quoted ref.namespace
      ∷ lit
          ", which no ReferenceGrant there permits it to reference; the listener will never be programmed and TLS handshakes on it will fail"
      ∷ [];
}

-- The body of the loop over the certificateRefs.
unfoldable pub judge : LintContext → List Grant → CertificateRef → Option Diagnostic
judge ctx grants ref =
    if ref.namespace == ref.owner.namespace
    then none
    else if not (described ctx grants ref.namespace)
    then none
    else if permitted grants ref
    then none
    else some (message ref)

unfoldable pub check_func : LintContext → Object → List Diagnostic
check_func ctx object =
    let certificate_refs = terminating_certificate_refs object.k8s_object in
    if is_empty certificate_refs
    then []
    else filter_map (judge ctx (reference_grants ctx)) certificate_refs
