-- ===== src/Checks/FqdnBackendColdStart/Coverage.antt =====
-- pkg/templates/fqdnbackendcoldstart/coverage.go. As in GatewayApi/PolicyCoverage,
-- LabelSelectorAsSelector is a parameter.
pub mod Agreement
pub mod Complete
use gwlint.Prelude.{
  String, Option, none, some, List, [], ◌∷◌, ◌++◌, Bool, true, false, not, ◌==◌, ◌&&◌, ◌||◌, Eq,
  ◌≡◌, ◌↔◌, arith, or_else, map, filter, filter_map, flat_map, any, contains, find?, if◌then◌else◌,
}
use gwlint.Prelude.Tests.{string_eq, nat_eq}
use gwlint.Api.{
  LabelSelectorRequirement, TargetSelector, TargetSelectorNamespaces, PolicyTargetReference,
  BackendTrafficPolicy, K8sObject, ListenerSet, HealthCheck, LintContext, backend_traffic_policy,
  listener_set_v1,
}
use gwlint.ObjectKinds
use gwlint.GatewayApi.Route.{Route, as_route, routes}
use gwlint.GatewayApi.Parent.{Parent, parents_of, matches, covers_listener}

pub record TargetRef : Type 0 where
  pub kind : String
  pub name : String
  pub section_name : Option String
  pub via_selector : Bool

abbrev pub target_ref_of : PolicyTargetReference → TargetRef
target_ref_of r = record {
  kind = r.kind;
  name = r.name;
  section_name = r.section_name;
  via_selector = false;
}

-- The singular reference is appended first where it is set.
abbrev pub singular : Option PolicyTargetReference → List TargetRef
singular none = []
singular (some ref) = target_ref_of ref ∷ []

unfoldable pub policy_target_refs : BackendTrafficPolicy → List TargetRef
policy_target_refs policy = singular policy.target_ref ++ map target_ref_of policy.target_refs

pub record CoveredRoute : Type 0 where
  pub ref : TargetRef
  pub route : Route
  pub inherited : Bool
  pub rule_section : Option String

unfoldable pub is_parent_kind : String → Bool
is_parent_kind kind = kind == ObjectKinds.gateway || kind == ObjectKinds.listener_set

unfoldable pub is_route_kind : String → Bool
is_route_kind kind = any (λ k. kind == k) ObjectKinds.route_kinds

unfoldable pub namespace_selected : Option TargetSelectorNamespaces → String → String → Bool
namespace_selected none policy_namespace route_namespace = route_namespace == policy_namespace
namespace_selected (some ns) policy_namespace route_namespace =
    if ns.from == ObjectKinds.from_same
    then route_namespace == policy_namespace
    else ns.from == ObjectKinds.from_all

unfoldable pub find_route : LintContext → String → String → String → Option Route
find_route ctx namespace name kind =
    find? (λ route. route.kind == kind && route.namespace == namespace && route.name == name)
      (routes ctx)

pub record RouteKey : Type 0 where
  pub kind : String
  pub namespace : String
  pub name : String

abbrev pub route_key_beq : RouteKey → RouteKey → Bool
route_key_beq a b = a.kind == b.kind && a.namespace == b.namespace && a.name == b.name

pub route_key_beq_iff : (a b : RouteKey) → (route_key_beq a b ≡ true) ↔ (a ≡ b)
route_key_beq_iff a b = ground (
  arith,
  string_eq.beq_iff a.kind b.kind,
  string_eq.beq_iff a.namespace b.namespace,
  string_eq.beq_iff a.name b.name,
)

instance abbrev pub route_key_eq : Eq RouteKey
route_key_eq = record { beq = route_key_beq; beq_iff = route_key_beq_iff }

abbrev pub key_of : Route → RouteKey
key_of r = record { kind = r.kind; namespace = r.namespace; name = r.name }

-- The inner loop leaves with `break` at the first parent that fits.
unfoldable pub routes_attached_to :
    LintContext → String → String → String → Option String → List Route
unfolding routes parents_of matches covers_listener
routes_attached_to ctx parent_kind parent_namespace parent_name listener =
    filter
      (λ route.
        any
          (λ parent.
            matches parent parent_kind parent_namespace parent_name
            && covers_listener parent listener)
          (parents_of route))
      (routes ctx)

pub record ListenerSetRef : Type 0 where
  pub namespace : String
  pub name : String

abbrev pub set_to_other : Option String → String → Bool
set_to_other none s = false
set_to_other (some t) s = not (t == s)

-- The body of the loop of listenerSetsOfGateway.
abbrev pub set_of : String → String → K8sObject → Option ListenerSetRef
set_of gateway_namespace gateway_name (listener_set_v1 ls) =
    if set_to_other ls.parent_ref.group ObjectKinds.group_name
    then none
    else if set_to_other ls.parent_ref.kind ObjectKinds.gateway
    then none
    else if or_else ls.parent_ref.namespace ls.meta.namespace == gateway_namespace
        && ls.parent_ref.name == gateway_name
    then some (record { namespace = ls.meta.namespace; name = ls.meta.name })
    else none
set_of gateway_namespace gateway_name _ = none

unfoldable pub listener_sets_of_gateway : LintContext → String → String → List ListenerSetRef
listener_sets_of_gateway ctx gateway_namespace gateway_name =
    filter_map (λ obj. set_of gateway_namespace gateway_name obj.k8s_object) ctx.objects

-- The inner loop, with the keys seen so far and the routes found so far.
unfoldable pub append_new : List RouteKey → List Route → List Route → List RouteKey × List Route
append_new seen found [] = (seen, found)
append_new seen found (r ∷ rs) =
    append_new (if contains seen (key_of r) then seen else key_of r ∷ seen)
      (if contains seen (key_of r) then found else found ++ r ∷ []) rs

unfoldable pub append_sets :
    LintContext → List RouteKey × List Route → List ListenerSetRef → List RouteKey × List Route
unfolding append_new routes_attached_to
append_sets ctx state [] = state
append_sets ctx state (ls ∷ sets) =
    append_sets ctx
      (append_new state.0 state.1
        (routes_attached_to ctx ObjectKinds.listener_set ls.namespace ls.name none))
      sets

unfoldable pub routes_attached_to_gateway :
    LintContext → String → String → Option String → List Route
unfolding append_sets listener_sets_of_gateway
routes_attached_to_gateway ctx gateway_namespace gateway_name listener =
    let direct =
      routes_attached_to ctx ObjectKinds.gateway gateway_namespace gateway_name listener in
    (append_sets ctx (map key_of direct, direct)
      (listener_sets_of_gateway ctx gateway_namespace gateway_name)).1

abbrev pub one_route : Option Route → List Route
one_route none = []
one_route (some route) = route ∷ []

unfoldable pub resolve_routes : LintContext → String → TargetRef → List Route
unfolding routes_attached_to_gateway is_route_kind find_route
resolve_routes ctx policy_namespace ref =
    if ref.kind == ObjectKinds.gateway
    then routes_attached_to_gateway ctx policy_namespace ref.name ref.section_name
    else if ref.kind == ObjectKinds.listener_set
    then routes_attached_to ctx ObjectKinds.listener_set policy_namespace ref.name ref.section_name
    else if not (is_route_kind ref.kind)
    then []
    else one_route (find_route ctx policy_namespace ref.name ref.kind)

unfoldable pub section_covers_rule : Option String → Option String → Bool
section_covers_rule none rule = true
section_covers_rule (some section) none = false
section_covers_rule (some section) (some rule) = rule == section

abbrev pub health_checked : Option HealthCheck → Bool
health_checked none = false
health_checked (some hc) = hc.active || hc.passive

-- template.go
unfoldable pub has_health_check : BackendTrafficPolicy → Bool
has_health_check policy = health_checked policy.health_check

module _
    (label_selector_as_selector : List (String × String)
      → List LabelSelectorRequirement
      → Option (List (String × String) → Bool)) where
  -- The body of the loop of resolveSelectedRoutes.
  abbrev pub selected_route :
      String → TargetSelector → (List (String × String) → Bool) → Route → Option Route
  selected_route policy_namespace sel selects route =
      if not (route.kind == sel.kind)
      then none
      else if not (namespace_selected sel.namespaces policy_namespace route.namespace)
      then none
      else if not (selects route.labels)
      then none
      else some route

  abbrev pub selected_object :
      String → TargetSelector → (List (String × String) → Bool) → Option Route → Option Route
  selected_object policy_namespace sel selects none = none
  selected_object policy_namespace sel selects (some route) =
      selected_route policy_namespace sel selects route

  abbrev pub selected_routes :
      LintContext → String → TargetSelector → Option (List (String × String) → Bool) → List Route
  selected_routes ctx policy_namespace sel none = []
  selected_routes ctx policy_namespace sel (some selects) =
      filter_map (λ obj. selected_object policy_namespace sel selects (as_route obj.k8s_object))
        ctx.objects

  unfoldable pub resolve_selected_routes : LintContext → String → TargetSelector → List Route
  unfolding as_route is_route_kind namespace_selected
  resolve_selected_routes ctx policy_namespace sel =
      if set_to_other sel.group ObjectKinds.group_name
      then []
      else if not (is_route_kind sel.kind)
      then []
      else selected_routes ctx policy_namespace sel
          (label_selector_as_selector sel.match_labels sel.match_expressions)

  abbrev pub ref_coverage : LintContext → String → TargetRef → List CoveredRoute
  ref_coverage ctx policy_namespace ref =
      map
        (λ route. record {
          ref = ref;
          route = route;
          inherited = is_parent_kind ref.kind;
          rule_section = if not (is_parent_kind ref.kind) then ref.section_name else none;
        })
        (resolve_routes ctx policy_namespace ref)

  abbrev pub selector_coverage : LintContext → String → TargetSelector → List CoveredRoute
  selector_coverage ctx policy_namespace sel =
      map
        (λ route. record {
          ref = record {
            kind = route.kind;
            name = route.name;
            section_name = none;
            via_selector = true;
          };
          route = route;
          inherited = false;
          rule_section = none;
        })
        (resolve_selected_routes ctx policy_namespace sel)

  unfoldable pub policy_coverage : LintContext → BackendTrafficPolicy → List CoveredRoute
  unfolding policy_target_refs resolve_routes resolve_selected_routes is_parent_kind
  policy_coverage ctx policy =
      flat_map (ref_coverage ctx policy.meta.namespace) (policy_target_refs policy)
      ++ flat_map (selector_coverage ctx policy.meta.namespace) policy.target_selectors

  abbrev covers_rule : Route → Option String → CoveredRoute → Bool
  covers_rule route rule covered =
      if covered.inherited || not (key_of covered.route == key_of route)
      then false
      else section_covers_rule covered.rule_section rule

  -- The body of the outer loop of isOverridden.
  abbrev overrides : LintContext → Route → Option String → BackendTrafficPolicy → K8sObject → Bool
  overrides ctx route rule self (backend_traffic_policy other) =
      if other.address == self.address || not (has_health_check other)
      then false
      else any (covers_rule route rule) (policy_coverage ctx other)
  overrides ctx route rule self _ = false

  unfoldable pub is_overridden : LintContext → Route → Option String → BackendTrafficPolicy → Bool
  unfolding policy_coverage section_covers_rule has_health_check
  is_overridden ctx route rule self =
      any (λ obj. overrides ctx route rule self obj.k8s_object) ctx.objects
