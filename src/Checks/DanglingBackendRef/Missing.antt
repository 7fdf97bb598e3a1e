-- ===== src/Checks/DanglingBackendRef/Missing.antt =====
-- What dangling-backend-ref reports.
use mathlib.Core.Path.{subst}
use mathlib.Core.Bool.{false≢true}
use gwlint.Prelude.{
  String, some, List, true, false, ◌≡◌, ◌↔◌, sym, ◌∙◌, ap, ◌==◌, ◌&&◌, iff_trans, filter_map,
  filter_map_says, any-contains, some_after_guards, eq-false_of_ne, contains, Any, Any-mono,
  Any-const, arith, Diagnostic,
}
use gwlint.Prelude.Tests.{string_eq}
use gwlint.Api.{LintContext, Object}
use gwlint.GatewayApi.Route.{
  Route, BackendRef, as_route, backend_group, backend_kind, backend_namespace,
}
use gwlint.GatewayApi.Parent.{ObjectRef, ref_eq, backend_targets, resolvable_backend_kind}
use gwlint.GatewayApi.Parent.Present.{IsTargetObject, contains-backend_targets}
use gwlint.Checks.DanglingBackendRef.{target_of, message, described, judge, check_func}

-- Some object of the manifest set is that Service or that Backend.
abbrev pub IsPresent : LintContext → ObjectRef → Type 0
IsPresent ctx ref = Any (λ obj. IsTargetObject ref obj.k8s_object) ctx.objects

-- The route has a backendRef of a kind that can be resolved which names the object.
abbrev pub RoutesTo : Route → ObjectRef → Type 0
RoutesTo route ref =
    Any
      (λ b.
        (resolvable_backend_kind (backend_group b) (backend_kind b) ≡ true)
        × (target_of route b ≡ ref))
      route.backend_refs

-- The set has an object of the same kind in the same namespace.
abbrev pub IsDescribed : LintContext → ObjectRef → Type 0
IsDescribed ctx ref =
    (other : ObjectRef) × IsPresent ctx other
    × (other.kind ≡ ref.kind)
    × (other.namespace ≡ ref.namespace)

both_iff : (a b c d : String) → ((a == b && c == d) ≡ true) ↔ ((a ≡ b) × (c ≡ d))
both_iff a b c d = ground (arith, string_eq.beq_iff a b, string_eq.beq_iff c d)

described_iff :
    (ctx : LintContext) (ref : ObjectRef)
    → (described (backend_targets ctx) ref.kind ref.namespace ≡ true) ↔ IsDescribed ctx ref
unfolding described
described_iff ctx ref =
    let (found, kept) =
      any-contains (λ r. r.kind == ref.kind && r.namespace == ref.namespace)
        (backend_targets ctx) in
    (
      λ h.
          let (other, member, same) = found h in
          let (kind, namespace) =
            (both_iff other.kind ref.kind other.namespace ref.namespace).0 same in
          (other, (contains-backend_targets other ctx).0 member, kind, namespace),
      λ (other, present, kind, namespace). kept (
        other,
        (contains-backend_targets other ctx).1 present,
        (both_iff other.kind ref.kind other.namespace ref.namespace).1 (kind, namespace),
      ),
    )

absent_iff :
    (ctx : LintContext) (ref : ObjectRef)
    → (contains (backend_targets ctx) ref ≡ false) ↔ (¬ IsPresent ctx ref)
absent_iff ctx ref = (
  λ h present. false≢true (sym h ∙ (contains-backend_targets ref ctx).1 present),
  λ absent. eq-false_of_ne (λ h. absent ((contains-backend_targets ref ctx).0 h)),
)

-- What the loop's body says of one backendRef.
abbrev Judged : List ObjectRef → Route → BackendRef → Diagnostic → Type 0
Judged known route b d =
    (resolvable_backend_kind (backend_group b) (backend_kind b) ≡ true)
    × (described known (target_of route b).kind (target_of route b).namespace ≡ true)
    × (contains known (target_of route b) ≡ false)
    × (message route (target_of route b) ≡ d)

judge-Judged :
    (known : List ObjectRef) (route : Route) (b : BackendRef) (d : Diagnostic)
    → (judge known route b ≡ some d) ↔ Judged known route b d
unfolding judge
judge-Judged known route b d =
    some_after_guards (resolvable_backend_kind (backend_group b) (backend_kind b))
      (described known (backend_kind b) (backend_namespace b route.namespace))
      (contains known (target_of route b)) (message route (target_of route b)) d

message_injective : (route : Route) (r s : ObjectRef) → message route r ≡ message route s → r ≡ s
message_injective route r s h = ground arith

check_func-filter_map :
    (ctx : LintContext) (object : Object) (route : Route)
    → as_route object.k8s_object ≡ some route
    → check_func ctx object ≡ filter_map (judge (backend_targets ctx) route) route.backend_refs
unfolding check_func
check_func-filter_map ctx object route e = rw (e, check_func)

-- For a route, an object is reported exactly when the route has a backendRef that names it, of a
-- kind that can be resolved, no Service or Backend of the manifest set is that object, and the set
-- has another of its kind in its namespace.
pub dangling_backend_iff :
    (ctx : LintContext) (object : Object) (route : Route) (ref : ObjectRef)
    → as_route object.k8s_object ≡ some route
    → Any (λ d. d ≡ message route ref) (check_func ctx object)
      ↔ (RoutesTo route ref × ((¬ IsPresent ctx ref) × IsDescribed ctx ref))
dangling_backend_iff ctx object route ref e =
    subst
      (λ ds.
        Any (λ d. d ≡ message route ref) ds
        ↔ (RoutesTo route ref × ((¬ IsPresent ctx ref) × IsDescribed ctx ref)))
      (sym (check_func-filter_map ctx object route e))
      (iff_trans
        (filter_map_says (judge (backend_targets ctx) route) (Judged (backend_targets ctx) route)
          (judge-Judged (backend_targets ctx) route) (message route ref) route.backend_refs)
        (
          λ h. (Any-const _ _ route.backend_refs).0 (Any-mono read route.backend_refs h),
          λ h. Any-mono build route.backend_refs ((Any-const _ _ route.backend_refs).1 h),
        ))
  where
    read :
        (b : BackendRef)
        → Judged (backend_targets ctx) route b (message route ref)
        → ((resolvable_backend_kind (backend_group b) (backend_kind b) ≡ true)
            × (target_of route b ≡ ref))
          × ((¬ IsPresent ctx ref) × IsDescribed ctx ref)
    read b (resolvable, described_here, absent, same) =
        let here : target_of route b ≡ ref = message_injective route _ ref same in
        (
          (resolvable, here),
          subst (λ r. (¬ IsPresent ctx r) × IsDescribed ctx r) here
              (
                (absent_iff ctx (target_of route b)).0 absent,
                (described_iff ctx (target_of route b)).0 described_here,
              ),
        )

    build :
        (b : BackendRef)
        → ((resolvable_backend_kind (backend_group b) (backend_kind b) ≡ true)
            × (target_of route b ≡ ref))
          × ((¬ IsPresent ctx ref) × IsDescribed ctx ref)
        → Judged (backend_targets ctx) route b (message route ref)
    build b ((resolvable, here), judged) =
        let (absent, described_here) =
          subst (λ r. (¬ IsPresent ctx r) × IsDescribed ctx r) (sym here) judged in
        (
          resolvable,
          (described_iff ctx (target_of route b)).1 described_here,
          (absent_iff ctx (target_of route b)).1 absent,
          ap (message route) here,
        )
