-- ===== src/Checks/DanglingBackendRef.antt =====
-- pkg/templates/danglingbackendref
pub mod Missing
use gwlint.Prelude.{
  String, Option, none, some, List, [], ◌∷◌, Bool, not, ◌==◌, ◌&&◌, any, filter_map, contains,
  if◌then◌else◌, Diagnostic, lit, quoted,
}
use gwlint.Prelude.Tests.{string_eq}
use gwlint.Api.{LintContext, Object}
use gwlint.GatewayApi.Route.{
  Route, BackendRef, as_route, backend_group, backend_kind, backend_namespace,
}
use gwlint.GatewayApi.Parent.{ObjectRef, ref_eq, backend_targets, resolvable_backend_kind}

-- Whether the map `described`, filled from `known`, has the kind and the namespace.
unfoldable pub described : List ObjectRef → String → String → Bool
described known kind namespace = any (λ ref. ref.kind == kind && ref.namespace == namespace) known

-- The object that a backendRef of the route names.
abbrev pub target_of : Route → BackendRef → ObjectRef
target_of route b = record {
  kind = backend_kind b;
  namespace = backend_namespace b route.namespace;
  name = b.ref.name;
}

abbrev pub message : Route → ObjectRef → Diagnostic
message route target = record {
  message =
      lit route.kind
      ∷ lit " "
      ∷ quoted route.name
      ∷ lit " routes to "
      ∷ lit target.kind
      ∷ lit " "
      ∷ quoted target.name
      ∷ lit " in namespace "
      ∷ quoted target.namespace
      ∷ lit ", which is not present; requests matching that rule have nowhere to go"
      ∷ [];
}

-- The body of the loop over the backendRefs.
unfoldable pub judge : List ObjectRef → Route → BackendRef → Option Diagnostic
judge known route b =
    if not (resolvable_backend_kind (backend_group b) (backend_kind b))
    then none
    else if not (described known (backend_kind b) (backend_namespace b route.namespace))
    then none
    else if contains known (target_of route b)
    then none
    else some (message route (target_of route b))

unfoldable pub check_func : LintContext → Object → List Diagnostic
check_func ctx object = elim (as_route object.k8s_object) [
  | none ↦ []
  | some route ↦ filter_map (judge (backend_targets ctx) route) route.backend_refs
]
