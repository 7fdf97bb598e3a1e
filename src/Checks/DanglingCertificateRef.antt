-- ===== src/Checks/DanglingCertificateRef.antt =====
-- pkg/templates/danglingcertificateref
pub mod Missing
use gwlint.Prelude.{
  String, Option, none, some, List, [], ◌∷◌, Bool, not, ◌==◌, any, filter_map, contains, is_empty,
  if◌then◌else◌, Diagnostic, lit, quoted,
}
use gwlint.Prelude.Tests.{string_eq}
use gwlint.Api.{LintContext, Object}
use gwlint.GatewayApi.Parent.{ObjectRef, ref_eq}
use gwlint.GatewayApi.Certificate.{
  CertificateRef, terminating_certificate_refs, certificate_secrets, resolvable_certificate_kind,
}

-- Whether the map `described`, filled from `known`, has the namespace.
unfoldable pub described : List ObjectRef → String → Bool
described known namespace = any (λ ref. ref.namespace == namespace) known

abbrev pub secret_named : CertificateRef → ObjectRef
secret_named ref = record { kind = ref.kind; namespace = ref.namespace; name = ref.name }

abbrev pub message : CertificateRef → Diagnostic
message ref = record {
  message =
      lit ref.owner.kind
      ∷ lit " "
      ∷ quoted ref.owner.name
      ∷ lit " listener "
      ∷ quoted ref.listener
      ∷ lit " terminates TLS with Secret "
      ∷ quoted ref.name
      ∷ lit " in namespace "
      ∷ quoted ref.namespace
      ∷ lit
          ", which is not present; the listener will never be programmed and TLS handshakes on it will fail"
      ∷ [];
}

-- The body of the loop over the certificateRefs.
unfoldable pub judge : List ObjectRef → CertificateRef → Option Diagnostic
judge known ref =
    if not (resolvable_certificate_kind ref.group ref.kind)
    then none
    else if not (described known ref.namespace)
    then none
    else if contains known (secret_named ref)
    then none
    else some (message ref)

unfoldable pub check_func : LintContext → Object → List Diagnostic
check_func ctx object =
    let certificate_refs = terminating_certificate_refs object.k8s_object in
    if is_empty certificate_refs
    then []
    else filter_map (judge (certificate_secrets ctx)) certificate_refs
