-- ===== src/Tests/Attachment.antt =====
-- Attachment of routes to Gateways and listeners, at the sample.
use gwlint.Prelude.{
  none, some, [], true, ◌≡◌, ◌≢◌, ◌↔◌, ◌⊎◌, inl, refl, Any, map, Diagnostic, codes,
}
use gwlint.ObjectKinds
use gwlint.GatewayApi.Route.{Route, as_route}
use gwlint.GatewayApi.Rules.{rules_of}
use gwlint.GatewayApi.Rules.Laws.{as_route-rules_of, flatten_rules}
use gwlint.GatewayApi.Parent.{listeners_by_owner, listeners_of, listeners_for, ObjectRef, ref_eq}
use gwlint.GatewayApi.Parent.Selection.{
  entries_of, as_listener, IsSelection, listeners_for-IsSelection,
}
use gwlint.GatewayApi.Hostnames.{hostnames_overlap, hostnames_intersect}
use gwlint.GatewayApi.Hostnames.Serving.{
  Shared, hostnames_overlap_iff, CanShare, hostnames_intersect_iff,
}
use gwlint.GatewayApi.Attach.{
  accepts_namespace, namespace_policy, accepts_kind, explicit_kinds, has_explicit_kinds,
}
use gwlint.GatewayApi.Attach.Admission.{accepts_namespace_iff, accepts_kind-explicit, IsOwn}
use gwlint.Checks.DanglingParentRef
use gwlint.Checks.DanglingParentRef.Reports.{Names, IsPresent, reported_iff}
use gwlint.Checks.RouteNotPermitted
use gwlint.Checks.RouteNotPermitted.Refusal.{route_not_permitted_iff}
use gwlint.Checks.ProtocolMismatch
use gwlint.Checks.Exclusive.{reported_once}
use gwlint.Tests.Sample.{context, shop_object, shop_route, as_route-shop, gone, parent_to, listener}

reported_iff_example :
    Any
      (λ d. d ≡ DanglingParentRef.message shop_route gone)
      (DanglingParentRef.check_func context shop_object)
    ↔ (Names shop_route gone
        × (¬ IsPresent context gone)
        × ((other : ObjectRef) × IsPresent context other))
reported_iff_example = reported_iff context shop_object shop_route gone as_route-shop

listeners_for_example :
    IsSelection
      (some "web")
      (map (as_listener listener.owner) (entries_of context listener.owner))
      (listeners_for (listeners_by_owner context) (parent_to "edge" (some "web")))
listeners_for_example = listeners_for-IsSelection context (parent_to "edge" (some "web"))

hostnames_overlap_iff_example :
    (hostnames_overlap (codes "*.example.com") (codes "a.b.example.com") ≡ true)
    ↔ Shared (codes "*.example.com") (codes "a.b.example.com")
hostnames_overlap_iff_example =
    hostnames_overlap_iff (codes "*.example.com") (codes "a.b.example.com")

hostnames_intersect_iff_example :
    (hostnames_intersect (some "*.example.com") shop_route.hostnames ≡ true)
    ↔ CanShare (some "*.example.com") shop_route.hostnames
hostnames_intersect_iff_example =
    hostnames_intersect_iff (some "*.example.com") shop_route.hostnames

accepts_namespace_iff_example : (accepts_namespace listener shop_route.namespace ≡ true) ↔ (
    (namespace_policy listener ≢ ObjectKinds.from_same)
    ⊎ (shop_route.namespace ≡ listener.owner.namespace))
accepts_namespace_iff_example = accepts_namespace_iff listener shop_route.namespace

listener_explicit : has_explicit_kinds listener ≡ true
unfolding has_explicit_kinds
listener_explicit = refl

accepts_kind-explicit_example : ((accepts_kind listener "HTTPRoute").0 ≡ true) ↔ (
    Any (λ k. IsOwn k × (k.kind ≡ "HTTPRoute")) (explicit_kinds listener.allowed)
    ⊎ ¬ Any IsOwn (explicit_kinds listener.allowed))
accepts_kind-explicit_example = accepts_kind-explicit listener "HTTPRoute" listener_explicit

as_route-rules_of_example :
    ((route : Route) × (as_route shop_object.k8s_object ≡ some route)
      × (route.backend_refs ≡ flatten_rules (rules_of shop_object.k8s_object)))
    ⊎ (as_route shop_object.k8s_object ≡ none) × (rules_of shop_object.k8s_object ≡ [])
as_route-rules_of_example = as_route-rules_of shop_object.k8s_object

refused :
    (d : Diagnostic) × (RouteNotPermitted.judge
        (listeners_by_owner context)
        shop_route
        (parent_to "edge" none)
      ≡ some d)
unfolding listeners_of accepts_namespace
refused =
    (route_not_permitted_iff context shop_route (parent_to "edge" none)).1
      (refl, ((inl refl, tt), refl))

reported_once_example :
    ProtocolMismatch.judge (listeners_by_owner context) shop_route (parent_to "edge" none) ≡ none
reported_once_example = reported_once context shop_route (parent_to "edge" none) refused.0 refused.1
