-- ===== src/Tests/Checks.antt =====
-- The checks over whole objects, at the sample.
use gwlint.Prelude.{String, some, [], ◌∷◌, false, ◌≡◌, ◌↔◌, refl, is_empty, Any, All}
use gwlint.ObjectKinds
use gwlint.Api.{LintContext, gateway_v1, secret, backend_traffic_policy}
use gwlint.GatewayApi.Parent.{ObjectRef, ref_eq, ref_of, parents_of}
use gwlint.GatewayApi.Parent.Selection.{selected, entries_of}
use gwlint.GatewayApi.Certificate.{terminating_certificate_refs}
use gwlint.Checks.RouteNotPermitted
use gwlint.Checks.RouteNotPermitted.Refusal.{Refuses}
use gwlint.Checks.ProtocolMismatch
use gwlint.Checks.ProtocolMismatch.Carriage.{Carries, Mismatches}
use gwlint.Checks.HostnameNeverMatches
use gwlint.Checks.HostnameNeverMatches.Disjoint.{CanMatch, NeverMatches}
use gwlint.Checks.ListenerNotFound
use gwlint.Checks.ListenerNotFound.Missing.{LacksEntry}
use gwlint.Checks.ConflictingPolicies
use gwlint.Checks.ConflictingPolicies.{targets_of}
use gwlint.Checks.ConflictingPolicies.Reporter.{IsContested, IsPreceded}
use gwlint.Checks.DanglingCertificateRef
use gwlint.Checks.DanglingCertificateRef.Missing.{IsUnserved, certificate_ref_iff}
use gwlint.Checks.ServiceBackendWithoutPort
use gwlint.Checks.ServiceBackendWithoutPort.Portless.{IsPortless, service_port_iff}
use gwlint.Checks.Whole.{
  not_permitted_check_iff, protocol_check_iff, hostname_check_iff, listener_check_iff,
  conflict_check_iff,
}
use gwlint.Tests.Sample.{
  context, meta, object_of, shop_object, shop_route, as_route-shop, retries, secure,
}

not_permitted_check_iff_example :
    (is_empty (RouteNotPermitted.check_func context shop_object) ≡ false)
    ↔ Any
        (λ p.
          (p.group ≡ ObjectKinds.group_name)
          × (All (Refuses shop_route) (selected context p)
              × (is_empty (selected context p) ≡ false)))
        (parents_of shop_route)
not_permitted_check_iff_example =
    not_permitted_check_iff context shop_object shop_route as_route-shop

protocol_check_iff_example :
    (is_empty (ProtocolMismatch.check_func context shop_object) ≡ false)
    ↔ Any
        (λ p.
          (p.group ≡ ObjectKinds.group_name)
          × (All (λ l. ¬ Carries shop_route l) (selected context p)
              × Any (Mismatches shop_route) (selected context p)))
        (parents_of shop_route)
protocol_check_iff_example = protocol_check_iff context shop_object shop_route as_route-shop

hostname_check_iff_example :
    (is_empty (HostnameNeverMatches.check_func context shop_object) ≡ false) ↔ (
      (is_empty shop_route.hostnames ≡ false)
      × Any
          (λ p.
            (p.group ≡ ObjectKinds.group_name)
            × (All (λ l. ¬ CanMatch shop_route l) (selected context p)
                × Any (NeverMatches shop_route) (selected context p)))
          (parents_of shop_route))
hostname_check_iff_example = hostname_check_iff context shop_object shop_route as_route-shop

listener_check_iff_example :
    (is_empty (ListenerNotFound.check_func context shop_object) ≡ false)
    ↔ Any
        (λ p.
          (p.group ≡ ObjectKinds.group_name)
          × ((section : String) × (p.section ≡ some section)
              × LacksEntry (entries_of context (ref_of p)) section))
        (parents_of shop_route)
listener_check_iff_example = listener_check_iff context shop_object shop_route as_route-shop

conflict_check_iff_example :
    (is_empty (ConflictingPolicies.check_func context (object_of (backend_traffic_policy retries)))
      ≡ false)
    ↔ Any
        (λ t. IsContested context retries t × (¬ IsPreceded context retries t))
        (targets_of retries)
conflict_check_iff_example =
    conflict_check_iff context (object_of (backend_traffic_policy retries)) retries refl

service_port_iff_example :
    (is_empty (ServiceBackendWithoutPort.check_func context shop_object) ≡ false)
    ↔ Any IsPortless shop_route.backend_refs
service_port_iff_example = service_port_iff context shop_object shop_route as_route-shop

-- The secure Gateway with another Secret beside it.
abbrev secrets : LintContext
secrets = record {
  objects = object_of (gateway_v1 secure) ∷ object_of (secret (meta "infra" "other")) ∷ [];
  invalid_objects = [];
}

abbrev other_secret : ObjectRef
other_secret = record { kind = "Secret"; namespace = "infra"; name = "other" }

certificate_ref_iff_example :
    (is_empty (DanglingCertificateRef.check_func secrets (object_of (gateway_v1 secure))) ≡ false)
    ↔ Any (IsUnserved secrets) (terminating_certificate_refs (gateway_v1 secure))
certificate_ref_iff_example = certificate_ref_iff secrets (object_of (gateway_v1 secure))
