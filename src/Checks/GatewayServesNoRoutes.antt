-- ===== src/Checks/GatewayServesNoRoutes.antt =====
-- pkg/templates/gatewayservesnoroutes
pub mod Unreached
use gwlint.Prelude.{
  String, Option, none, some, List, [], ◌∷◌, Bool, true, false, not, ◌==◌, ◌&&◌, any, is_empty,
  filter_map, contains, if◌then◌else◌, Diagnostic, lit, quoted,
}
use gwlint.Prelude.Tests.{string_eq}
use gwlint.Api.{LintContext, Object, K8sObject, Gateway, listener_set_v1}
use gwlint.ObjectKinds
use gwlint.GatewayApi.Route.{Route, routes}
use gwlint.GatewayApi.Parent.{
  Parent, ObjectRef, ref_eq, ref_of, parents_of, as_gateway, listener_set_parent,
}

-- The body of the loop of listenerSetsOf.
abbrev pub owned_by : ObjectRef → K8sObject → Option ObjectRef
owned_by gateway (listener_set_v1 ls) =
    if not (listener_set_parent ls == gateway)
    then none
    else some (record {
      kind = ObjectKinds.listener_set;
      namespace = ls.meta.namespace;
      name = ls.meta.name;
    })
owned_by gateway _ = none

unfoldable pub listener_sets_of : LintContext → ObjectRef → List ObjectRef
listener_sets_of ctx gateway = filter_map (λ obj. owned_by gateway obj.k8s_object) ctx.objects

abbrev pub gateway_ref : Gateway → ObjectRef
gateway_ref gateway = record {
  kind = ObjectKinds.gateway;
  namespace = gateway.meta.namespace;
  name = gateway.meta.name;
}

abbrev pub message : Gateway → Diagnostic
message gateway = record {
  message =
      lit "Gateway "
      ∷ quoted gateway.meta.name
      ∷ lit " in namespace "
      ∷ quoted gateway.meta.namespace
      ∷ lit
          " has no route attached; no route in the manifest set names it as a parentRef, directly or through a ListenerSet, so it is provisioned and serves no traffic"
      ∷ [];
}

-- The test of the inner loop: `continue` on another group, and else a lookup.
abbrev pub reaches : List ObjectRef → Parent → Bool
reaches attach_points parent =
    if not (parent.group == ObjectKinds.group_name)
    then false
    else contains attach_points (ref_of parent)

-- The two loops over the routes and their parents, which return at the first that reaches one.
unfoldable pub any_reaches : List ObjectRef → List Route → Bool
any_reaches attach_points rs = any (λ route. any (reaches attach_points) (parents_of route)) rs

unfoldable pub judge : LintContext → Gateway → List Diagnostic
judge ctx gateway =
    if is_empty (routes ctx)
    then []
    else if any_reaches (gateway_ref gateway ∷ listener_sets_of ctx (gateway_ref gateway))
        (routes ctx)
    then []
    else message gateway ∷ []

unfoldable pub check_func : LintContext → Object → List Diagnostic
check_func ctx object = elim (as_gateway object.k8s_object) [
  | none ↦ []
  | some gateway ↦ judge ctx gateway
]
