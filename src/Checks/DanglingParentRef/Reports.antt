-- ===== src/Checks/DanglingParentRef/Reports.antt =====
-- What dangling-parent-ref reports.
use mathlib.Core.Path.{subst}
use mathlib.Core.Bool.{false≢true}
use gwlint.Prelude.{
  Any-const, Any-witness, eq-false_of_ne, [], some, List, true, false, ◌≡◌, ◌↔◌, ◌⊎◌, inl, inr, sym,
  ◌∙◌, ap, is_empty, filter_map, filter_map_iff, contains, Any, Any-mono, Bool-cases, if◌then◌else◌,
  arith, Diagnostic,
}
use gwlint.Prelude.Tests.{string_eq}
use gwlint.ObjectKinds
use gwlint.Api.{LintContext, Object}
use gwlint.GatewayApi.Route.{Route, as_route}
use gwlint.GatewayApi.Parent.{
  Parent, ObjectRef, ref_eq, ref_of, parents_of, gateways_and_listener_sets,
}
use gwlint.GatewayApi.Parent.Present.{
  IsParentObject, contains-gateways_and_listener_sets, is_empty-gateways_and_listener_sets,
}
use gwlint.Checks.DanglingParentRef.{message, judge, check_func}

message_injective : (route : Route) (r s : ObjectRef) → message route r ≡ message route s → r ≡ s
message_injective route r s h = ground arith

judge_found :
    (known : List ObjectRef) (route : Route) (p : Parent) (d : Diagnostic)
    → judge known route p ≡ some d
    → (p.group ≡ ObjectKinds.group_name)
      × (contains known (ref_of p) ≡ false)
      × (d ≡ message route (ref_of p))
unfolding judge
judge_found known route p d e = elim (Bool-cases (contains known (ref_of p))) [
  | inl h ↦ ground (arith, string_eq.beq_iff p.group ObjectKinds.group_name)
  | inr h ↦ (ground (arith, string_eq.beq_iff p.group ObjectKinds.group_name), h, ground (arith))
]

judge_kept :
    (known : List ObjectRef) (route : Route) (p : Parent)
    → p.group ≡ ObjectKinds.group_name
    → contains known (ref_of p) ≡ false
    → judge known route p ≡ some (message route (ref_of p))
unfolding judge
judge_kept known route p g h = rw ((string_eq.beq_iff p.group ObjectKinds.group_name).1 g, h)

-- The route has a parentRef in the Gateway API group that resolves to the reference.
abbrev pub Names : Route → ObjectRef → Type 0
Names route ref =
    Any (λ p. (p.group ≡ ObjectKinds.group_name) × (ref_of p ≡ ref)) (parents_of route)

-- Some object of the manifest set is that Gateway, at v1, or that ListenerSet.
abbrev pub IsPresent : LintContext → ObjectRef → Type 0
IsPresent ctx ref = Any (λ obj. IsParentObject ref obj.k8s_object) ctx.objects

judged_iff :
    (known : List ObjectRef) (route : Route) (ref : ObjectRef)
    → Any (λ d. d ≡ message route ref) (filter_map (judge known route) (parents_of route))
      ↔ (Names route ref × (contains known ref ≡ false))
judged_iff known route ref = (
  λ h. (Any-const _ _ (parents_of route)).0 (
      Any-mono
        (λ p (d, e, k).
          let (group, absent, same) = judge_found known route p d e in
          let here : ref_of p ≡ ref = message_injective route (ref_of p) ref (sym same ∙ k) in
          ((group, here), subst (λ r. contains known r ≡ false) here absent))
        (parents_of route) ((filter_map_iff _ (judge known route) (parents_of route)).0 h)),
  λ h. (filter_map_iff _ (judge known route) (parents_of route)).1 (
      Any-mono
        (λ p ((group, here), absent). (
          message route (ref_of p),
          judge_kept known route p group (subst (λ r. contains known r ≡ false) (sym here) absent),
          ap (message route) here,
        ))
        (parents_of route) ((Any-const _ _ (parents_of route)).1 h)),
)

check_func-filter_map :
    (ctx : LintContext) (object : Object) (route : Route)
    → as_route object.k8s_object ≡ some route
    → check_func ctx object ≡ (
        if is_empty (gateways_and_listener_sets ctx)
        then []
        else filter_map (judge (gateways_and_listener_sets ctx) route) (parents_of route))
unfolding check_func
check_func-filter_map ctx object route e = rw (e, check_func)

-- For a route, a reference is reported exactly when the route has a parentRef in the Gateway API
-- group that resolves to it, no v1 Gateway and no ListenerSet of the manifest set is that object,
-- and the set has at least one v1 Gateway or ListenerSet.
pub reported_iff :
    (ctx : LintContext) (object : Object) (route : Route) (ref : ObjectRef)
    → as_route object.k8s_object ≡ some route
    → Any (λ d. d ≡ message route ref) (check_func ctx object)
      ↔ (Names route ref × (¬ IsPresent ctx ref) × ((other : ObjectRef) × IsPresent ctx other))
reported_iff ctx object route ref e =
    subst (λ ds. Any (λ d. d ≡ message route ref) ds ↔ Reported)
      (sym (check_func-filter_map ctx object route e)) (by_guard (Bool-cases (is_empty known)))
  where
    known : List ObjectRef
    known = gateways_and_listener_sets ctx

    Reported : Type 0
    Reported = Names route ref × (¬ IsPresent ctx ref) × ((other : ObjectRef) × IsPresent ctx other)

    by_guard :
        (is_empty known ≡ true) ⊎ (is_empty known ≡ false)
        → Any
            (λ d. d ≡ message route ref)
            (if is_empty known then [] else filter_map (judge known route) (parents_of route))
          ↔ Reported
    by_guard (inl none_known) = rw none_known (
      λ h. absurd h,
      λ h.
          let given = (Any-witness (λ obj r. IsParentObject r obj.k8s_object) ctx.objects).1 h.2 in
          absurd
            (false≢true (sym ((is_empty-gateways_and_listener_sets ctx).1 given) ∙ none_known)),
    )
    by_guard (inr some_known) = rw some_known (
      λ h.
          let (names, absent) = (judged_iff known route ref).0 h in
          (
            names,
            λ present.
                false≢true (sym absent ∙ (contains-gateways_and_listener_sets ref ctx).1 present),
            (Any-witness (λ obj r. IsParentObject r obj.k8s_object) ctx.objects).0
                ((is_empty-gateways_and_listener_sets ctx).0 some_known),
          ),
      λ (names, absent, _).
          (judged_iff known route ref).1 (
            names,
            eq-false_of_ne (λ h. absent ((contains-gateways_and_listener_sets ref ctx).0 h)),
          ),
    )
