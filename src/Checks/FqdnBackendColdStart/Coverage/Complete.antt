-- ===== src/Checks/FqdnBackendColdStart/Coverage/Complete.antt =====
-- The check's own coverage of a policy against that of pkg/gatewayapi.
use gwlint.Prelude.{
  String, Option, none, some, List, [], ◌∷◌, ◌++◌, Bool, true, false, not, ◌==◌, ◌&&◌, ◌≡◌, inl,
  inr, refl, ap, ◌∙◌, map, filter, filter_map, flat_map, if◌then◌else◌, Bool-cases, Option-cases,
  consider,
}
use gwlint.Prelude.Tests.{string_eq}
use gwlint.ObjectKinds
use gwlint.Api.{
  LintContext, Object, BackendTrafficPolicy, PolicyTargetReference, TargetSelector,
  TargetSelectorNamespaces, LabelSelectorRequirement,
}
use gwlint.GatewayApi.Route.{Route, as_route, routes}
use gwlint.GatewayApi.PolicyCoverage.{
  PolicyTarget, routes_targeted_by, routes_selected_by, backend_traffic_policy_targets,
  backend_traffic_policy_coverage, target_namespace_selected,
}
use gwlint.GatewayApi.PolicyCoverage as PolicyCoverage
use gwlint.Checks.FqdnBackendColdStart.Coverage.{
  TargetRef, resolve_routes, resolve_selected_routes, policy_target_refs, policy_coverage,
  find_route, namespace_selected, routes_attached_to,
}
use gwlint.Checks.FqdnBackendColdStart.Coverage as Coverage
use gwlint.Checks.FqdnBackendColdStart.Coverage.Agreement.{gateway_routes_agree, group_alike}

-- The records of the two, field by field.
abbrev pub target_of : TargetRef → PolicyTarget
target_of ref = record {
  kind = ref.kind;
  name = ref.name;
  section_name = ref.section_name;
  via_selector = ref.via_selector;
}

abbrev pub covered_of : Coverage.CoveredRoute → PolicyCoverage.CoveredRoute
covered_of c = record {
  target = target_of c.ref;
  route = c.route;
  inherited = c.inherited;
  rule_section = c.rule_section;
}

abbrev policy_target : PolicyTargetReference → PolicyTarget
policy_target ref = record {
  kind = ref.kind;
  name = ref.name;
  section_name = ref.section_name;
  via_selector = false;
}

resolve_agrees :
    (ctx : LintContext) (namespace : String) (ref : TargetRef)
    → resolve_routes ctx namespace ref ≡ routes_targeted_by ctx namespace (target_of ref)
unfolding resolve_routes routes_targeted_by find_route Coverage.is_route_kind
    PolicyCoverage.is_route_kind routes_attached_to PolicyCoverage.routes_attached_to_parent
resolve_agrees ctx namespace ref =
    let gateways = gateway_routes_agree ctx namespace ref.name ref.section_name in
    elim (Bool-cases (ref.kind == ObjectKinds.gateway)) [
      | inl e ↦ rw e gateways
      | inr e ↦ rw e refl
    ]

map-append {ℓ κ} :
    {A : Type ℓ} {B : Type κ} (f : A → B) (xs ys : List A) → map f (xs ++ ys) ≡ map f xs ++ map f ys
map-append f [] ys = refl
map-append f (x ∷ xs) ys = ap (λ zs. f x ∷ zs) (map-append f xs ys)

map-flat_map :
    {A B C : Type 0} (f : B → C) (g : A → List B) (h : A → List C)
    → ((x : A) → map f (g x) ≡ h x)
    → (xs : List A) → map f (flat_map g xs) ≡ flat_map h xs
map-flat_map f g h same [] = refl
map-flat_map f g h same (x ∷ xs) =
    let here = same x in
    let rest = map-flat_map f g h same xs in map-append f (g x) (flat_map g xs) ∙ (cc)

flat_map-map :
    {A B C : Type 0} (h : B → List C) (k : A → B) (xs : List A)
    → flat_map (λ x. h (k x)) xs ≡ flat_map h (map k xs)
flat_map-map h k [] = refl
flat_map-map h k (x ∷ xs) = ap (λ rest. h (k x) ++ rest) (flat_map-map h k xs)

map-map :
    {A B C : Type 0} (f : B → C) (g : A → B) (h : A → C)
    → ((x : A) → f (g x) ≡ h x)
    → (xs : List A) → map f (map g xs) ≡ map h xs
map-map f g h same [] = refl
map-map f g h same (x ∷ xs) = let here = same x in let rest = map-map f g h same xs in cc

namespace_agrees :
    (o : Option TargetSelectorNamespaces) (p r : String)
    → namespace_selected o p r ≡ target_namespace_selected o p r
unfolding namespace_selected target_namespace_selected
namespace_agrees none p r = refl
namespace_agrees (some ns) p r = refl

targets_agree :
    (policy : BackendTrafficPolicy)
    → map target_of (policy_target_refs policy) ≡ backend_traffic_policy_targets policy
unfolding policy_target_refs backend_traffic_policy_targets
targets_agree policy = listed policy.target_ref
  where
    listed :
        (o : Option PolicyTargetReference)
        → map target_of (Coverage.singular o ++ map Coverage.target_ref_of policy.target_refs)
          ≡ map policy_target (PolicyCoverage.to_list o ++ policy.target_refs)
    listed none =
        map-map target_of Coverage.target_ref_of policy_target (λ ref. refl) policy.target_refs
    listed (some ref) =
        ap (λ rest. policy_target ref ∷ rest)
          (map-map target_of Coverage.target_ref_of policy_target (λ r. refl) policy.target_refs)

unless_swap : (b : Bool) (o : Option String) → (if not b then o else none) ≡ (if b then none else o)
unless_swap true o = refl
unless_swap false o = refl

-- The two records that are built for a route of a target, and for one of a selector.
abbrev covering : TargetRef → Route → Coverage.CoveredRoute
covering ref route = record {
  ref = ref;
  route = route;
  inherited = Coverage.is_parent_kind ref.kind;
  rule_section = if not (Coverage.is_parent_kind ref.kind) then ref.section_name else none;
}

abbrev covered : TargetRef → Route → PolicyCoverage.CoveredRoute
covered ref route = record {
  target = target_of ref;
  route = route;
  inherited = PolicyCoverage.is_parent_kind ref.kind;
  rule_section = if PolicyCoverage.is_parent_kind ref.kind then none else ref.section_name;
}

sections : (ref : TargetRef) (route : Route) → covered_of (covering ref route) ≡ covered ref route
unfolding Coverage.is_parent_kind PolicyCoverage.is_parent_kind
sections ref route =
    ap
      (λ o. record {
        target = target_of ref;
        route = route;
        inherited = PolicyCoverage.is_parent_kind ref.kind;
        rule_section = o;
      })
      (unless_swap (PolicyCoverage.is_parent_kind ref.kind) ref.section_name)

abbrev selecting : Route → Coverage.CoveredRoute
selecting route = record {
  ref = record { kind = route.kind; name = route.name; section_name = none; via_selector = true };
  route = route;
  inherited = false;
  rule_section = none;
}

abbrev selected : Route → PolicyCoverage.CoveredRoute
selected route = record {
  target = record {
    kind = route.kind;
    name = route.name;
    section_name = none;
    via_selector = true;
  };
  route = route;
  inherited = false;
  rule_section = none;
}

chosen :
    (a b c : Bool) (r : Route) (rs : List Route)
    → consider (if not a then none else if not b then none else if not c then none else some r) rs
      ≡ (if a && b && c then r ∷ rs else rs)
chosen false b c r rs = refl
chosen true false c r rs = refl
chosen true true false r rs = refl
chosen true true true r rs = refl

module _
    (label_selector_as_selector : List (String × String)
      → List LabelSelectorRequirement
      → Option (List (String × String) → Bool)) where
  kept :
      (namespace : String) (sel : TargetSelector) (selects : List (String × String) → Bool)
      → (objs : List Object)
      → filter_map
          (λ obj.
            Coverage.selected_object label_selector_as_selector namespace sel selects
              (as_route obj.k8s_object))
          objs
        ≡ filter
            (λ route.
              route.kind == sel.kind
              && target_namespace_selected sel.namespaces namespace route.namespace
              && selects route.labels)
            (filter_map (λ obj. as_route obj.k8s_object) objs)
  kept namespace sel selects [] = refl
  kept namespace sel selects (obj ∷ objs) =
      let rest = kept namespace sel selects objs in
      elim (Option-cases (as_route obj.k8s_object)) [
        | inl e ↦ rw e rest
        | inr (route, e) ↦ rw e (
            let same = namespace_agrees sel.namespaces namespace route.namespace in
            rw (Coverage.selected_route, same, rest)
              (chosen (route.kind == sel.kind)
                (target_namespace_selected sel.namespaces namespace route.namespace)
                (selects route.labels) route _))
      ]

  selected_agrees :
      (ctx : LintContext) (namespace : String) (sel : TargetSelector)
      → resolve_selected_routes label_selector_as_selector ctx namespace sel
        ≡ routes_selected_by label_selector_as_selector ctx namespace sel
  unfolding resolve_selected_routes routes_selected_by Coverage.is_route_kind
      PolicyCoverage.is_route_kind routes
  selected_agrees ctx namespace sel =
      let group = group_alike sel.group in
      let same = selectors (label_selector_as_selector sel.match_labels sel.match_expressions) in
      elim (Bool-cases (Coverage.set_to_other sel.group ObjectKinds.group_name)) [
        | inl e ↦ rw (group, e) refl
        | inr e ↦ elim (Bool-cases (Coverage.is_route_kind sel.kind)) [
          | inl f ↦ rw (group, e, f) same
          | inr f ↦ rw (group, e, f) refl
        ]
      ]
    where
      selectors :
          (o : Option (List (String × String) → Bool))
          → Coverage.selected_routes label_selector_as_selector ctx namespace sel o
            ≡ PolicyCoverage.selected_routes label_selector_as_selector ctx namespace sel o
      selectors none = refl
      selectors (some selects) = kept namespace sel selects ctx.objects

  ref_agrees :
      (ctx : LintContext) (policy : BackendTrafficPolicy) (ref : TargetRef)
      → map covered_of
          (Coverage.ref_coverage label_selector_as_selector ctx policy.meta.namespace ref)
        ≡ PolicyCoverage.target_coverage label_selector_as_selector ctx policy (target_of ref)
  unfolding Coverage.is_parent_kind PolicyCoverage.is_parent_kind
  ref_agrees ctx policy ref =
      map-map covered_of (covering ref) (covered ref) (sections ref)
        (resolve_routes ctx policy.meta.namespace ref)
      ∙ ap (map (covered ref)) (resolve_agrees ctx policy.meta.namespace ref)

  sel_agrees :
      (ctx : LintContext) (policy : BackendTrafficPolicy) (sel : TargetSelector)
      → map covered_of
          (Coverage.selector_coverage label_selector_as_selector ctx policy.meta.namespace sel)
        ≡ PolicyCoverage.selector_coverage label_selector_as_selector ctx policy sel
  sel_agrees ctx policy sel =
      map-map covered_of selecting selected (λ route. refl)
        (resolve_selected_routes label_selector_as_selector ctx policy.meta.namespace sel)
      ∙ ap (map selected) (selected_agrees ctx policy.meta.namespace sel)

  -- What the check says that a policy covers is what pkg/gatewayapi says, in the same order: for each
  -- target and each selector the same routes, inherited or not, and the same rule.
  pub coverage_agrees :
      (ctx : LintContext) (policy : BackendTrafficPolicy)
      → map covered_of (policy_coverage label_selector_as_selector ctx policy)
        ≡ backend_traffic_policy_coverage label_selector_as_selector ctx policy
  unfolding policy_coverage backend_traffic_policy_coverage Coverage.is_parent_kind
      PolicyCoverage.is_parent_kind
  coverage_agrees ctx policy =
      let L = label_selector_as_selector in
      let refs =
        map-flat_map covered_of (Coverage.ref_coverage L ctx policy.meta.namespace)
          (λ ref. PolicyCoverage.target_coverage L ctx policy (target_of ref))
          (ref_agrees ctx policy) (policy_target_refs policy)
        ∙ flat_map-map (PolicyCoverage.target_coverage L ctx policy) target_of
            (policy_target_refs policy)
        ∙ ap (flat_map (PolicyCoverage.target_coverage L ctx policy)) (targets_agree policy) in
      let sels =
        map-flat_map covered_of (Coverage.selector_coverage L ctx policy.meta.namespace)
          (PolicyCoverage.selector_coverage L ctx policy) (sel_agrees ctx policy)
          policy.target_selectors in
      map-append covered_of
        (flat_map (Coverage.ref_coverage L ctx policy.meta.namespace) (policy_target_refs policy))
        (flat_map (Coverage.selector_coverage L ctx policy.meta.namespace) policy.target_selectors)
      ∙ (cc)
