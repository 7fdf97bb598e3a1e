-- ===== src/Checks/DanglingPolicyTarget.antt =====
-- pkg/templates/danglingpolicytarget
use gwlint.Prelude.{
  String, Option, none, some, List, [], ◌∷◌, ◌++◌, Bool, true, not, ◌==◌, ◌&&◌, ◌||◌, any, map,
  filter_map, contains, if◌then◌else◌, Diagnostic, lit, quoted,
}
use gwlint.Prelude.Tests.{string_eq}
use gwlint.Api.{
  LintContext, Object, K8sObject, BackendTrafficPolicy, PolicyTargetReference,
  backend_traffic_policy,
}
use gwlint.ObjectKinds
use gwlint.GatewayApi.Route.{routes}
use gwlint.GatewayApi.Parent.{ObjectRef, ref_eq, gateways_and_listener_sets}
use gwlint.GatewayApi.PolicyCoverage.{to_list}

-- The set that policyTargets builds: the references of the Gateways and ListenerSets, and then
-- those of the routes.
unfoldable pub policy_targets : LintContext → List ObjectRef
policy_targets ctx =
    gateways_and_listener_sets ctx
    ++ map (λ route. record { kind = route.kind; namespace = route.namespace; name = route.name })
        (routes ctx)

unfoldable pub targetable_kind : String → Bool
targetable_kind kind =
    if kind == ObjectKinds.gateway || kind == ObjectKinds.listener_set
    then true
    else any (λ route_kind. kind == route_kind) ObjectKinds.route_kinds

abbrev pub target_refs_of : BackendTrafficPolicy → List PolicyTargetReference
target_refs_of policy = to_list policy.target_ref ++ policy.target_refs

-- Whether the map `described`, filled from `known`, has the kind and the namespace.
unfoldable pub described : List ObjectRef → String → String → Bool
described known kind namespace = any (λ ref. ref.kind == kind && ref.namespace == namespace) known

abbrev pub target_object : BackendTrafficPolicy → PolicyTargetReference → ObjectRef
target_object policy ref = record {
  kind = ref.kind;
  namespace = policy.meta.namespace;
  name = ref.name;
}

abbrev pub message : BackendTrafficPolicy → PolicyTargetReference → Diagnostic
message policy ref = record {
  message =
      lit "BackendTrafficPolicy "
      ∷ quoted policy.meta.name
      ∷ lit " targets "
      ∷ lit ref.kind
      ∷ lit " "
      ∷ quoted ref.name
      ∷ lit " in namespace "
      ∷ quoted policy.meta.namespace
      ∷ lit ", which is not present; the policy attaches to nothing and its settings never apply"
      ∷ [];
}

-- The body of the loop over the targetRefs.
unfoldable pub judge :
    List ObjectRef → BackendTrafficPolicy → PolicyTargetReference → Option Diagnostic
judge known policy ref =
    if not (ref.group == "") && not (ref.group == ObjectKinds.group_name)
    then none
    else if not (targetable_kind ref.kind)
    then none
    else if not (described known ref.kind policy.meta.namespace)
    then none
    else if contains known (target_object policy ref)
    then none
    else some (message policy ref)

abbrev judge_object : LintContext → K8sObject → List Diagnostic
judge_object ctx (backend_traffic_policy policy) =
    filter_map (judge (policy_targets ctx) policy) (target_refs_of policy)
judge_object ctx _ = []

unfoldable pub check_func : LintContext → Object → List Diagnostic
check_func ctx object = judge_object ctx object.k8s_object
