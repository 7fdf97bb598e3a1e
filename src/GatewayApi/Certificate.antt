-- ===== src/GatewayApi/Certificate.antt =====
-- pkg/gatewayapi/certificate.go: the certificateRefs of terminating listeners and the Secrets of a
-- manifest set. The v1beta1 Gateway is read here as the v1 one is.
pub mod Issued
use gwlint.Prelude.{
  String, Option, none, some, List, [], Bool, true, not, ◌==◌, ◌&&◌, ◌||◌, map, filter_map,
  flat_map, or_else, if◌then◌else◌,
}
use gwlint.Prelude.Tests.{string_eq}
use gwlint.Api.{
  SecretObjectReference, ListenerTlsConfig, ListenerEntry, Unstructured, K8sObject, LintContext,
  listener_set_v1, secret, unstructured,
}
use gwlint.ObjectKinds
use gwlint.GatewayApi.Parent.{ObjectRef, as_gateway}

abbrev pub cert_manager_group : String
cert_manager_group = "cert-manager.io"

abbrev pub secret_kind : String
secret_kind = "Secret"

pub record CertificateRef : Type 0 where
  pub owner : ObjectRef
  pub listener : String
  pub group : String
  pub kind : String
  pub namespace : String
  pub name : String

-- An omitted mode is Terminate.
abbrev pub terminates : Option String → Bool
terminates none = true
terminates (some mode) = mode == ObjectKinds.tls_terminate

abbrev pub certificate_ref : ObjectRef → String → SecretObjectReference → CertificateRef
certificate_ref owner listener ref = record {
  owner = owner;
  listener = listener;
  group = or_else ref.group "";
  kind = or_else ref.kind secret_kind;
  namespace = or_else ref.namespace owner.namespace;
  name = ref.name;
}

unfoldable pub certificate_refs_of :
    ObjectRef → String → Option ListenerTlsConfig → List CertificateRef
certificate_refs_of owner listener none = []
certificate_refs_of owner listener (some tls) =
    if not (terminates tls.mode)
    then []
    else map (certificate_ref owner listener) tls.certificate_refs

abbrev refs_of_listeners : ObjectRef → List ListenerEntry → List CertificateRef
refs_of_listeners owner listeners = flat_map (λ l. certificate_refs_of owner l.name l.tls) listeners

-- The case that is left where AsGateway finds none.
abbrev listener_set_refs : K8sObject → List CertificateRef
listener_set_refs (listener_set_v1 ls) =
    refs_of_listeners
      (record {
        kind = ObjectKinds.listener_set;
        namespace = ls.meta.namespace;
        name = ls.meta.name;
      })
      ls.listeners
listener_set_refs _ = []

unfoldable pub terminating_certificate_refs : K8sObject → List CertificateRef
unfolding as_gateway
terminating_certificate_refs obj = elim (as_gateway obj) [
  | none ↦ listener_set_refs obj
  | some gw ↦
      refs_of_listeners
        (record { kind = ObjectKinds.gateway; namespace = gw.meta.namespace; name = gw.meta.name })
        gw.listeners
]

unfoldable pub resolvable_certificate_kind : String → String → Bool
resolvable_certificate_kind group kind = group == "" && kind == secret_kind

abbrev pub non_empty : Option String → Option String
non_empty none = none
non_empty (some name) = if name == "" then none else some name

unfoldable pub cert_manager_secret_name : Unstructured → Option String
cert_manager_secret_name obj =
    if not (obj.group == cert_manager_group) || not (obj.kind == "Certificate")
    then none
    else non_empty obj.secret_name

abbrev pub secret_ref : String → String → ObjectRef
secret_ref namespace name = record { kind = secret_kind; namespace = namespace; name = name }

unfoldable pub secret_of : K8sObject → Option ObjectRef
unfolding cert_manager_secret_name
secret_of (secret m) = some (secret_ref m.namespace m.name)
secret_of (unstructured u) = elim (cert_manager_secret_name u) [
  | none ↦ none
  | some name ↦ some (secret_ref u.meta.namespace name)
]
secret_of _ = none

unfoldable pub certificate_secrets : LintContext → List ObjectRef
unfolding secret_of
certificate_secrets ctx = filter_map (λ obj. secret_of obj.k8s_object) ctx.objects
