-- ===== src/Checks/ServiceBackendWithoutPort.antt =====
-- pkg/templates/servicebackendwithoutport
pub mod Portless
use gwlint.Prelude.{
  Option, none, some, List, [], ◌∷◌, not, ◌==◌, ◌||◌, filter_map, if◌then◌else◌, Diagnostic, lit,
  quoted,
}
use gwlint.Prelude.Tests.{string_eq}
use gwlint.Api.{LintContext, Object}
use gwlint.GatewayApi.Route.{
  Route, BackendRef, as_route, backend_group, backend_kind, backend_namespace,
}

abbrev pub message : Route → BackendRef → Diagnostic
message route b = record {
  message =
      lit route.kind
      ∷ lit " "
      ∷ quoted route.name
      ∷ lit " routes to Service "
      ∷ quoted b.ref.name
      ∷ lit " in namespace "
      ∷ quoted (backend_namespace b route.namespace)
      ∷ lit
          " with no port; Gateway API requires a port on a Service backendRef, so the reference does not resolve and the rule serves errors"
      ∷ [];
}

unfoldable pub judge : Route → BackendRef → Option Diagnostic
judge route b =
    if not (backend_group b == "") || not (backend_kind b == "Service")
    then none
    else elim b.ref.port [ none ↦ some (message route b) | some port ↦ none ]

unfoldable pub check_func : LintContext → Object → List Diagnostic
check_func ctx object = elim (as_route object.k8s_object) [
  | none ↦ []
  | some route ↦ filter_map (judge route) route.backend_refs
]
