-- ===== src/Checks/MissingReferenceGrant.antt =====
-- pkg/templates/missingreferencegrant: template.go and grants.go
pub mod Permission
use gwlint.Prelude.{
  String, Option, none, some, List, [], ◌∷◌, Bool, true, false, not, ◌==◌, ◌&&◌, any, is_empty,
  filter_map, get, push, if◌then◌else◌, Diagnostic, lit, quoted,
}
use gwlint.Prelude.Tests.{string_eq}
use gwlint.Api.{
  LintContext, Object, K8sObject, ReferenceGrantSpec, ReferenceGrantFrom, ReferenceGrantTo,
  reference_grant_v1, reference_grant_v1beta1, reference_grant_v1alpha2, meta_of,
}
use gwlint.ObjectKinds
use gwlint.GatewayApi.Route.{
  Route, BackendRef, as_route, backend_group, backend_kind, backend_namespace,
}

pub record Reference : Type 0 where
  pub from_kind : String
  pub from_namespace : String
  pub to_group : String
  pub to_kind : String
  pub to_name : String

-- The type switch of the loop: a grant's spec, or `continue`.
abbrev pub spec_of : K8sObject → Option ReferenceGrantSpec
spec_of (reference_grant_v1 rg) = some rg.spec
spec_of (reference_grant_v1beta1 rg) = some rg.spec
spec_of (reference_grant_v1alpha2 rg) = some rg.spec
spec_of _ = none

-- The body of the loop, after the switch.
abbrev pub add_grant :
    String
    → Option ReferenceGrantSpec
    → List (String × List ReferenceGrantSpec)
    → List (String × List ReferenceGrantSpec)
add_grant ns none by_namespace = by_namespace
add_grant ns (some spec) by_namespace = push ns spec by_namespace

unfoldable pub index_grants :
    List Object → List (String × List ReferenceGrantSpec) → List (String × List ReferenceGrantSpec)
index_grants [] by_namespace = by_namespace
index_grants (obj ∷ objs) by_namespace =
    index_grants objs
      (add_grant (meta_of obj.k8s_object).namespace (spec_of obj.k8s_object) by_namespace)

unfoldable pub grants_by_namespace : LintContext → List (String × List ReferenceGrantSpec)
unfolding index_grants
grants_by_namespace ctx = index_grants ctx.objects []

unfoldable pub matches_from : List ReferenceGrantFrom → Reference → Bool
matches_from from ref =
    any
      (λ f.
        f.group == ObjectKinds.group_name
        && (f.kind == ref.from_kind && f.namespace == ref.from_namespace))
      from

abbrev names : Option String → String → Bool
names none name = true
names (some n) name = n == name

-- The body of the loop of matchesTo.
abbrev pub matches_entry : ReferenceGrantTo → Reference → Bool
matches_entry t ref =
    if not (t.group == ref.to_group && t.kind == ref.to_kind)
    then false
    else names t.name ref.to_name

unfoldable pub matches_to : List ReferenceGrantTo → Reference → Bool
matches_to to ref = any (λ t. matches_entry t ref) to

unfoldable pub permits : List ReferenceGrantSpec → Reference → Bool
unfolding matches_from matches_to
permits grants ref = any (λ g. matches_from g.from ref && matches_to g.to ref) grants

abbrev pub reference_of : Route → BackendRef → Reference
reference_of route b = record {
  from_kind = route.kind;
  from_namespace = route.namespace;
  to_group = backend_group b;
  to_kind = backend_kind b;
  to_name = b.ref.name;
}

abbrev pub message : Route → Reference → String → Diagnostic
message route ref target = record {
  message =
      lit route.kind
      ∷ lit " "
      ∷ quoted route.name
      ∷ lit " in namespace "
      ∷ quoted route.namespace
      ∷ lit " routes to "
      ∷ lit ref.to_kind
      ∷ lit " "
      ∷ quoted ref.to_name
      ∷ lit " in namespace "
      ∷ quoted target
      ∷ lit ", but no ReferenceGrant there permits "
      ∷ lit route.kind
      ∷ lit " from namespace "
      ∷ quoted route.namespace
      ∷ lit
          " to reference it; the backendRef resolves to nothing and requests matching that rule fail"
      ∷ [];
}

-- The body of the loop over the backendRefs, with the grants of each namespace.
unfoldable pub judge :
    List (String × List ReferenceGrantSpec) → Route → BackendRef → Option Diagnostic
judge grants route b =
    let target = backend_namespace b route.namespace in
    if target == route.namespace
    then none
    else if is_empty (get target grants)
    then none
    else if permits (get target grants) (reference_of route b)
    then none
    else some (message route (reference_of route b) target)

unfoldable pub check_func : LintContext → Object → List Diagnostic
check_func ctx object = elim (as_route object.k8s_object) [
  | none ↦ []
  | some route ↦
      if route.namespace == ""
      then []
      else filter_map (judge (grants_by_namespace ctx) route) route.backend_refs
]
