-- ===== src/Checks/TlsListenerWithoutCertificate.antt =====
-- pkg/templates/tlslistenerwithoutcertificate
use gwlint.Prelude.{
  String, Option, none, some, List, [], ◌∷◌, Bool, true, false, not, ◌==◌, ◌&&◌, ◌||◌, is_empty,
  filter_map, if◌then◌else◌, Diagnostic, lit, quoted, int,
}
use gwlint.Prelude.Tests.{string_eq}
use gwlint.Api.{LintContext, Object, ListenerTlsConfig, meta_of}
use gwlint.ObjectKinds
use gwlint.GatewayApi.Parent.{GatewayListener, gateway_listeners_of, tls_mode}

abbrev pub has_no_certificate : Option ListenerTlsConfig → Bool
has_no_certificate none = true
has_no_certificate (some tls) = is_empty tls.certificate_refs && is_empty tls.options

unfoldable pub terminates_tls : GatewayListener → Bool
terminates_tls listener =
    if not (
      listener.protocol == ObjectKinds.https_protocol
      || listener.protocol == ObjectKinds.tls_protocol)
    then false
    else if not (tls_mode listener == ObjectKinds.tls_terminate)
    then false
    else has_no_certificate listener.tls

abbrev pub message : String → GatewayListener → Diagnostic
message name listener = record {
  message =
      lit "Gateway "
      ∷ quoted name
      ∷ lit " listener "
      ∷ quoted listener.name
      ∷ lit " terminates "
      ∷ lit listener.protocol
      ∷ lit
          " but declares no tls.certificateRefs, so it has no certificate to present and every handshake on port "
      ∷ int listener.port
      ∷ lit " fails"
      ∷ [];
}

unfoldable pub judge : String → GatewayListener → Option Diagnostic
judge name listener = if not (terminates_tls listener) then none else some (message name listener)

unfoldable pub check_func : LintContext → Object → List Diagnostic
check_func ctx object = elim (gateway_listeners_of object.k8s_object) [
  | none ↦ []
  | some listeners ↦ filter_map (judge (meta_of object.k8s_object).name) listeners
]
