-- ===== src/Checks/DanglingParentRef.antt =====
-- pkg/templates/danglingparentref
pub mod Reports
use gwlint.Prelude.{
  String, Option, none, some, List, [], ◌∷◌, Bool, not, ◌==◌, is_empty, filter_map, contains,
  if◌then◌else◌, Diagnostic, lit, quoted,
}
use gwlint.Prelude.Tests.{string_eq}
use gwlint.Api.{LintContext, Object}
use gwlint.ObjectKinds
use gwlint.GatewayApi.Route.{Route, as_route}
use gwlint.GatewayApi.Parent.{
  Parent, ObjectRef, ref_eq, ref_of, parents_of, gateways_and_listener_sets,
}

abbrev pub message : Route → ObjectRef → Diagnostic
message route parent = record {
  message =
      lit route.kind
      ∷ lit " "
      ∷ quoted route.name
      ∷ lit " attaches to "
      ∷ lit parent.kind
      ∷ lit " "
      ∷ quoted parent.name
      ∷ lit " in namespace "
      ∷ quoted parent.namespace
      ∷ lit
          ", which is not present; the route will never be programmed and its traffic will not be served"
      ∷ [];
}

-- The body of the loop over the parentRefs.
unfoldable pub judge : List ObjectRef → Route → Parent → Option Diagnostic
judge known route parent =
    if not (parent.group == ObjectKinds.group_name)
    then none
    else if contains known (ref_of parent)
    then none
    else some (message route (ref_of parent))

unfoldable pub check_func : LintContext → Object → List Diagnostic
check_func ctx object = elim (as_route object.k8s_object) [
  | none ↦ []
  | some route ↦
      let known = gateways_and_listener_sets ctx in
      if is_empty known then [] else filter_map (judge known route) (parents_of route)
]
