-- ===== src/Checks/ServiceBackendWithoutPort/Portless.antt =====
-- What service-backend-without-port reports.
use mathlib.Core.Path.{subst}
use gwlint.Prelude.{
  Option, none, some, true, false, not, ◌||◌, ◌≡◌, ◌↔◌, refl, sym, is_empty, Diagnostic, filter_map,
  filter_map_nonempty, Any, Bool, ◌==◌, if◌then◌else◌,
}
use gwlint.Prelude.Tests.{string_eq}
use gwlint.Api.{LintContext, Object, ℤ}
use gwlint.GatewayApi.Route.{Route, BackendRef, as_route, backend_group, backend_kind}
use gwlint.Checks.ServiceBackendWithoutPort.{message, judge, check_func}

-- The reference is to a core Service and has no port.
abbrev pub IsPortless : BackendRef → Type 0
IsPortless b = (backend_group b ≡ "") × (backend_kind b ≡ "Service") × (b.ref.port ≡ none)

reports_when :
    (a b : Bool) (port : Option ℤ) (d : Diagnostic)
    → ((x : Diagnostic) × ((if not a || not b
            then none
            else elim port [ none ↦ some d | some p ↦ none ])
          ≡ some x))
      ↔ ((a ≡ true) × (b ≡ true) × (port ≡ none))
reports_when false b port d = (λ (x, e). cc, λ (h, _, _). cc)
reports_when true false port d = (λ (x, e). cc, λ (_, h, _). cc)
reports_when true true none d = (λ _. (refl, refl, refl), λ _. (d, refl))
reports_when true true (some p) d = (λ (x, e). cc, λ (_, _, h). cc)

judged_iff :
    (route : Route) (b : BackendRef) → ((d : Diagnostic) × (judge route b ≡ some d)) ↔ IsPortless b
unfolding judge
judged_iff route b =
    let (read, build) =
      reports_when (backend_group b == "") (backend_kind b == "Service") b.ref.port
        (message route b) in
    (
      λ h.
          let (group, kind, port) = read h in
          (
            (string_eq.beq_iff (backend_group b) "").0 group,
            (string_eq.beq_iff (backend_kind b) "Service").0 kind,
            port,
          ),
      λ (group, kind, port). build (
        (string_eq.beq_iff (backend_group b) "").1 group,
        (string_eq.beq_iff (backend_kind b) "Service").1 kind,
        port,
      ),
    )

check_func-filter_map :
    (ctx : LintContext) (object : Object) (route : Route)
    → as_route object.k8s_object ≡ some route
    → check_func ctx object ≡ filter_map (judge route) route.backend_refs
unfolding check_func
check_func-filter_map ctx object route e = rw (e, check_func)

-- A route is reported exactly when one of its backendRefs names a Service of the core group, which
-- an omitted group and an omitted kind mean, and has no port.
pub service_port_iff :
    (ctx : LintContext) (object : Object) (route : Route)
    → as_route object.k8s_object ≡ some route
    → (is_empty (check_func ctx object) ≡ false) ↔ Any IsPortless route.backend_refs
service_port_iff ctx object route e =
    subst (λ ds. (is_empty ds ≡ false) ↔ Any IsPortless route.backend_refs)
      (sym (check_func-filter_map ctx object route e))
      (filter_map_nonempty (judge route) IsPortless (judged_iff route) route.backend_refs)
