-- ===== src/Checks/RouteNotPermitted.antt =====
-- pkg/templates/routenotpermitted
pub mod Refusal
use gwlint.Prelude.{
  String, Option, none, some, List, [], ◌∷◌, ◌++◌, Bool, true, not, ◌==◌, is_empty, filter_map,
  if◌then◌else◌, Diagnostic, Text, lit, quoted, join_words, blank, lookup,
}
use gwlint.Prelude.Tests.{string_eq}
use gwlint.Api.{LintContext, Object}
use gwlint.ObjectKinds
use gwlint.GatewayApi.Route.{Route, as_route}
use gwlint.GatewayApi.Parent.{
  Parent, ObjectRef, Listener, ref_eq, ref_of, parents_of, listeners_by_owner, select_section,
}
use gwlint.Checks.Reasons.{Verdict, stop, report, reasons}
use gwlint.GatewayApi.Attach.{accepts_namespace, accepts_kind, has_explicit_kinds, namespace_policy}

-- The listeners that the parentRef selects.
unfoldable pub listeners_named : List Listener → Parent → List Listener
listeners_named listeners parent = select_section listeners parent.section

abbrev namespace_reason : Listener → Route → Text
namespace_reason l route =
    lit "listener "
    ∷ quoted l.name
    ∷ lit " admits routes from "
    ∷ quoted (namespace_policy l)
    ∷ lit " namespaces and the route is in "
    ∷ quoted route.namespace
    ∷ []

abbrev kind_reason : Listener → Route → List String → Text
kind_reason l route kinds =
    lit "listener "
    ∷ quoted l.name
    ∷ lit " accepts "
    ∷ (join_words " or " kinds ++ lit " and the route is a " ∷ lit route.kind ∷ [])

-- One round of the loop over the candidates.
unfoldable pub verdict : Route → Listener → Verdict
verdict route l =
    if not (accepts_namespace l route.namespace)
    then report (namespace_reason l route)
    else if not (has_explicit_kinds l)
    then stop
    else if not (accepts_kind l route.kind).0
    then report (kind_reason l route (accepts_kind l route.kind).1)
    else stop

unfoldable pub why_none_admit : List Listener → Route → Text
why_none_admit listeners route = reasons (verdict route) "; " listeners

abbrev message : Route → Parent → Text → Diagnostic
message route parent reason = record {
  message =
      lit route.kind
      ∷ lit " "
      ∷ quoted route.name
      ∷ lit " attaches to "
      ∷ lit parent.kind
      ∷ lit " "
      ∷ quoted parent.name
      ∷ lit ", which will not admit it: "
      ∷ (reason ++ lit "; the route never attaches and its traffic is not served" ∷ []);
}

-- The rest of the loop's body for a parent that is present.
unfoldable pub judge_present : Route → Parent → List Listener → Option Diagnostic
judge_present route parent listeners =
    let candidates = listeners_named listeners parent in
    if is_empty candidates
    then none
    else let reason = why_none_admit candidates route in
      if blank reason then none else some (message route parent reason)

-- A parent that is not in the index is another check's.
abbrev judge_found : Route → Parent → Option (List Listener) → Option Diagnostic
judge_found route parent none = none
judge_found route parent (some listeners) = judge_present route parent listeners

unfoldable pub judge : List (ObjectRef × List Listener) → Route → Parent → Option Diagnostic
judge by_owner route parent =
    if not (parent.group == ObjectKinds.group_name)
    then none
    else judge_found route parent (lookup (ref_of parent) by_owner)

unfoldable pub check_func : LintContext → Object → List Diagnostic
check_func ctx object = elim (as_route object.k8s_object) [
  | none ↦ []
  | some route ↦ filter_map (judge (listeners_by_owner ctx) route) (parents_of route)
]
