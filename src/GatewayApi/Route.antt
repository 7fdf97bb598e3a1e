-- ===== src/GatewayApi/Route.antt =====
-- pkg/gatewayapi/route.go: every route kind, at every served version, as one `Route`.
use gwlint.Prelude.{String, Option, none, some, List, [], map, or_else, flat_map, filter_map}
use gwlint.Api.{
  ApiBackendRef, ParentReference, ObjectMeta, StreamRouteRule, HttpRoute, GrpcRoute, StreamRoute,
  TlsRoute, K8sObject, LintContext, http_route_v1, http_route_v1beta1, grpc_route_v1,
  grpc_route_v1alpha2, tcp_route_v1, tcp_route_v1alpha2, tls_route_v1, tls_route_v1alpha3,
  tls_route_v1alpha2, udp_route_v1, udp_route_v1alpha2,
}
use gwlint.ObjectKinds

-- One backendRef with the name of its rule.
pub record BackendRef : Type 0 where
  pub rule : Option String
  pub ref : ApiBackendRef

abbrev pub backend_namespace : BackendRef → String → String
backend_namespace b route_namespace = or_else b.ref.namespace route_namespace

abbrev pub backend_group : BackendRef → String
backend_group b = or_else b.ref.group ""

abbrev pub backend_kind : BackendRef → String
backend_kind b = or_else b.ref.kind "Service"

pub record Route : Type 0 where
  pub kind : String
  pub namespace : String
  pub name : String
  pub labels : List (String × String)
  pub hostnames : List String
  pub parent_refs : List ParentReference
  pub backend_refs : List BackendRef

abbrev pub new_route :
    String → ObjectMeta → List String → List ParentReference → List BackendRef → Route
new_route kind meta hostnames parent_refs backend_refs = record {
  kind = kind;
  namespace = meta.namespace;
  name = meta.name;
  labels = meta.labels;
  hostnames = hostnames;
  parent_refs = parent_refs;
  backend_refs = backend_refs;
}

abbrev pub named : Option String → List ApiBackendRef → List BackendRef
named rule refs = map (λ br. record { rule = rule; ref = br }) refs

abbrev pub http_route : HttpRoute → Route
http_route route = new_route ObjectKinds.http_route route.meta route.hostnames route.parent_refs (
    flat_map
      (λ rule. map (λ br. record { rule = rule.name; ref = br.backend_ref }) rule.backend_refs)
      route.rules)

abbrev pub grpc_route : GrpcRoute → Route
grpc_route route = new_route ObjectKinds.grpc_route route.meta route.hostnames route.parent_refs (
    flat_map
      (λ rule. map (λ br. record { rule = rule.name; ref = br.backend_ref }) rule.backend_refs)
      route.rules)

abbrev pub tcp_route : StreamRoute → Route
tcp_route route =
    new_route ObjectKinds.tcp_route route.meta [] route.parent_refs
      (flat_map (λ rule. named rule.name rule.backend_refs) route.rules)

abbrev pub tls_route : TlsRoute → Route
tls_route route =
    new_route ObjectKinds.tls_route route.meta route.hostnames route.parent_refs
      (flat_map (λ rule. named rule.name rule.backend_refs) route.rules)

abbrev pub udp_route : StreamRoute → Route
udp_route route =
    new_route ObjectKinds.udp_route route.meta [] route.parent_refs
      (flat_map (λ rule. named rule.name rule.backend_refs) route.rules)

-- The extractors of the v1alpha2 TCP, TLS and UDP rules, three times the same loop.
abbrev pub alpha2_backend_refs : List StreamRouteRule → List BackendRef
alpha2_backend_refs rules = flat_map (λ rule. named rule.name rule.backend_refs) rules

-- The type switch; none is Go's `Route{}, false`.
unfoldable pub as_route : K8sObject → Option Route
as_route (http_route_v1 route) = some (http_route route)
as_route (http_route_v1beta1 route) = some (http_route route)
as_route (grpc_route_v1 route) = some (grpc_route route)
as_route (grpc_route_v1alpha2 route) = some (grpc_route route)
as_route (tcp_route_v1 route) = some (tcp_route route)
as_route (tcp_route_v1alpha2 route) = some (
    new_route ObjectKinds.tcp_route route.meta [] route.parent_refs
      (alpha2_backend_refs route.rules))
as_route (tls_route_v1 route) = some (tls_route route)
as_route (tls_route_v1alpha3 route) = some (tls_route route)
as_route (tls_route_v1alpha2 route) = some (
    new_route ObjectKinds.tls_route route.meta route.hostnames route.parent_refs
      (alpha2_backend_refs route.rules))
as_route (udp_route_v1 route) = some (udp_route route)
as_route (udp_route_v1alpha2 route) = some (
    new_route ObjectKinds.udp_route route.meta [] route.parent_refs
      (alpha2_backend_refs route.rules))
as_route _ = none

unfoldable pub routes : LintContext → List Route
routes ctx = filter_map (λ obj. as_route obj.k8s_object) ctx.objects
