-- ===== src/GatewayApi/PolicyCoverage.antt =====
-- pkg/gatewayapi/policycoverage.go: the routes that a BackendTrafficPolicy applies to. The label
-- selector of k8s.io/apimachinery is a parameter: LabelSelectorAsSelector takes the labels and the
-- expressions to a test of a label set, or to an error, which is none.
pub mod Attached
use gwlint.Prelude.{
  String, Option, none, some, List, [], ◌∷◌, ◌++◌, Bool, true, false, not, ◌==◌, ◌&&◌, ◌||◌, map,
  filter, filter_map, flat_map, any, contains, find?, Eq, ◌≡◌, ◌↔◌, arith, if◌then◌else◌,
}
use gwlint.Prelude.Tests.{string_eq, nat_eq}
use gwlint.Api.{
  LabelSelectorRequirement, TargetSelector, TargetSelectorNamespaces, PolicyTargetReference,
  BackendTrafficPolicy, K8sObject, ListenerSet, LintContext, backend_traffic_policy,
  listener_set_v1,
}
use gwlint.ObjectKinds
use gwlint.GatewayApi.Route.{Route, routes}
use gwlint.GatewayApi.Parent.{
  Parent, ObjectRef, parents_of, matches, covers_listener, listener_set_parent,
}

pub record PolicyTarget : Type 0 where
  pub kind : String
  pub name : String
  pub section_name : Option String
  pub via_selector : Bool

pub record CoveredRoute : Type 0 where
  pub target : PolicyTarget
  pub route : Route
  pub inherited : Bool
  pub rule_section : Option String

abbrev pub to_list : Option PolicyTargetReference → List PolicyTargetReference
to_list none = []
to_list (some ref) = ref ∷ []

unfoldable pub backend_traffic_policy_targets : BackendTrafficPolicy → List PolicyTarget
backend_traffic_policy_targets policy =
    map
      (λ ref. record {
        kind = ref.kind;
        name = ref.name;
        section_name = ref.section_name;
        via_selector = false;
      })
      (to_list policy.target_ref ++ policy.target_refs)

abbrev named_by : Option String → String → Bool
named_by none section = false
named_by (some rule) section = rule == section

unfoldable pub section_covers_rule : Option String → Option String → Bool
section_covers_rule none rule = true
section_covers_rule (some section) rule = named_by rule section

unfoldable pub is_parent_kind : String → Bool
is_parent_kind kind = kind == ObjectKinds.gateway || kind == ObjectKinds.listener_set

unfoldable pub is_route_kind : String → Bool
is_route_kind kind = any (λ k. kind == k) ObjectKinds.route_kinds

pub record PolicyRouteKey : Type 0 where
  pub kind : String
  pub namespace : String
  pub name : String

abbrev pub key_beq : PolicyRouteKey → PolicyRouteKey → Bool
key_beq a b = a.kind == b.kind && a.namespace == b.namespace && a.name == b.name

pub key_beq_iff : (a b : PolicyRouteKey) → (key_beq a b ≡ true) ↔ (a ≡ b)
key_beq_iff a b = ground (
  arith,
  string_eq.beq_iff a.kind b.kind,
  string_eq.beq_iff a.namespace b.namespace,
  string_eq.beq_iff a.name b.name,
)

instance abbrev pub key_eq : Eq PolicyRouteKey
key_eq = record { beq = key_beq; beq_iff = key_beq_iff }

abbrev pub policy_route_key_of : Route → PolicyRouteKey
policy_route_key_of r = record { kind = r.kind; namespace = r.namespace; name = r.name }

unfoldable pub target_namespace_selected : Option TargetSelectorNamespaces → String → String → Bool
target_namespace_selected none policy_namespace route_namespace =
    route_namespace == policy_namespace
target_namespace_selected (some ns) policy_namespace route_namespace =
    if ns.from == ObjectKinds.from_same
    then route_namespace == policy_namespace
    else ns.from == ObjectKinds.from_all

unfoldable pub routes_attached_to_parent :
    LintContext → String → String → String → Option String → List Route
unfolding routes parents_of matches covers_listener
routes_attached_to_parent ctx kind namespace name listener =
    filter
      (λ route.
        any (λ parent. matches parent kind namespace name && covers_listener parent listener)
          (parents_of route))
      (routes ctx)

abbrev pub names_gateway_group : Option String → Bool
names_gateway_group none = true
names_gateway_group (some group) = group == ObjectKinds.group_name

abbrev pub names_gateway_kind : Option String → Bool
names_gateway_kind none = true
names_gateway_kind (some kind) = kind == ObjectKinds.gateway

abbrev pub set_of_gateway : String → String → K8sObject → Option ObjectRef
set_of_gateway namespace name (listener_set_v1 ls) =
    if not (names_gateway_group ls.parent_ref.group)
    then none
    else if not (names_gateway_kind ls.parent_ref.kind)
    then none
    else if (listener_set_parent ls).namespace == namespace && (listener_set_parent ls).name == name
    then some (record {
      kind = ObjectKinds.listener_set;
      namespace = ls.meta.namespace;
      name = ls.meta.name;
    })
    else none
set_of_gateway namespace name _ = none

unfoldable pub listener_sets_belonging_to : LintContext → String → String → List ObjectRef
unfolding listener_set_parent
listener_sets_belonging_to ctx namespace name =
    filter_map (λ obj. set_of_gateway namespace name obj.k8s_object) ctx.objects

-- The inner loop: the routes that are not seen yet are appended, and their keys are seen from then
-- on. The seen keys are always those of the routes so far.
unfoldable pub append_unseen : List Route → List Route → List Route
append_unseen found [] = found
append_unseen found (r ∷ rs) =
    append_unseen
      (if contains (map policy_route_key_of found) (policy_route_key_of r)
        then found
        else found ++ r ∷ [])
      rs

unfoldable pub append_of_sets : LintContext → List Route → List ObjectRef → List Route
unfolding append_unseen routes_attached_to_parent
append_of_sets ctx found [] = found
append_of_sets ctx found (ls ∷ sets) =
    append_of_sets ctx
      (append_unseen found
        (routes_attached_to_parent ctx ObjectKinds.listener_set ls.namespace ls.name none))
      sets

unfoldable pub routes_attached_to_gateway :
    LintContext → String → String → Option String → List Route
unfolding append_of_sets listener_sets_belonging_to
routes_attached_to_gateway ctx namespace name listener =
    append_of_sets ctx (routes_attached_to_parent ctx ObjectKinds.gateway namespace name listener)
      (listener_sets_belonging_to ctx namespace name)

abbrev first_route : Option Route → List Route
first_route none = []
first_route (some route) = route ∷ []

unfoldable pub routes_targeted_by : LintContext → String → PolicyTarget → List Route
unfolding routes_attached_to_gateway is_route_kind
routes_targeted_by ctx policy_namespace target =
    if target.kind == ObjectKinds.gateway
    then routes_attached_to_gateway ctx policy_namespace target.name target.section_name
    else if target.kind == ObjectKinds.listener_set
    then routes_attached_to_parent ctx ObjectKinds.listener_set policy_namespace target.name
        target.section_name
    else if not (is_route_kind target.kind)
    then []
    else first_route (
        find?
          (λ route.
            route.kind == target.kind
            && route.namespace == policy_namespace
            && route.name == target.name)
          (routes ctx))

module _
    (label_selector_as_selector : List (String × String)
      → List LabelSelectorRequirement
      → Option (List (String × String) → Bool)) where
  abbrev pub selected_routes :
      LintContext → String → TargetSelector → Option (List (String × String) → Bool) → List Route
  selected_routes ctx policy_namespace sel none = []
  selected_routes ctx policy_namespace sel (some selects) =
      filter
        (λ route.
          route.kind == sel.kind
          && target_namespace_selected sel.namespaces policy_namespace route.namespace
          && selects route.labels)
        (routes ctx)

  unfoldable pub routes_selected_by : LintContext → String → TargetSelector → List Route
  unfolding routes is_route_kind target_namespace_selected
  routes_selected_by ctx policy_namespace sel =
      if not (names_gateway_group sel.group)
      then []
      else if not (is_route_kind sel.kind)
      then []
      else selected_routes ctx policy_namespace sel
          (label_selector_as_selector sel.match_labels sel.match_expressions)

  abbrev pub target_coverage : LintContext → BackendTrafficPolicy → PolicyTarget → List CoveredRoute
  target_coverage ctx policy target =
      map
        (λ route. record {
          target = target;
          route = route;
          inherited = is_parent_kind target.kind;
          rule_section = if is_parent_kind target.kind then none else target.section_name;
        })
        (routes_targeted_by ctx policy.meta.namespace target)

  abbrev pub selector_coverage :
      LintContext → BackendTrafficPolicy → TargetSelector → List CoveredRoute
  selector_coverage ctx policy sel =
      map
        (λ route. record {
          target = record {
            kind = route.kind;
            name = route.name;
            section_name = none;
            via_selector = true;
          };
          route = route;
          inherited = false;
          rule_section = none;
        })
        (routes_selected_by ctx policy.meta.namespace sel)

  unfoldable pub backend_traffic_policy_coverage :
      LintContext → BackendTrafficPolicy → List CoveredRoute
  unfolding backend_traffic_policy_targets routes_targeted_by routes_selected_by is_parent_kind
  backend_traffic_policy_coverage ctx policy =
      flat_map (target_coverage ctx policy) (backend_traffic_policy_targets policy)
      ++ flat_map (selector_coverage ctx policy) policy.target_selectors

  abbrev covers_rule : Route → Option String → CoveredRoute → Bool
  covers_rule route rule covered =
      not
        (covered.inherited || not (policy_route_key_of covered.route == policy_route_key_of route))
      && section_covers_rule covered.rule_section rule

  -- `other == self` compares the pointers.
  abbrev displaces : LintContext → Route → Option String → BackendTrafficPolicy → K8sObject → Bool
  displaces ctx route rule self (backend_traffic_policy other) =
      not (other.address == self.address)
      && any (covers_rule route rule) (backend_traffic_policy_coverage ctx other)
  displaces ctx route rule self _ = false

  unfoldable pub more_specific_policy_covers :
      LintContext → Route → Option String → BackendTrafficPolicy → Bool
  unfolding backend_traffic_policy_coverage section_covers_rule
  more_specific_policy_covers ctx route rule self =
      any (λ obj. displaces ctx route rule self obj.k8s_object) ctx.objects
