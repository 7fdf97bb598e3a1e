-- ===== src/Checks/ProtocolMismatch.antt =====
-- pkg/templates/protocolmismatch
pub mod Carriage
use gwlint.Prelude.{
  String, Option, none, some, List, [], ◌∷◌, ◌++◌, Bool, not, ◌==◌, ◌||◌, is_empty, filter_map,
  contains, if◌then◌else◌, Diagnostic, Text, lit, quoted, join_words, blank,
}
use gwlint.Prelude.Tests.{string_eq}
use gwlint.Api.{LintContext, Object}
use gwlint.ObjectKinds
use gwlint.GatewayApi.Route.{Route, as_route}
use gwlint.GatewayApi.Parent.{
  Parent, ObjectRef, Listener, parents_of, listeners_by_owner, listeners_for,
}
use gwlint.Checks.Reasons.{Verdict, skip, stop, report, reasons}
use gwlint.GatewayApi.Attach.{accepts_namespace, accepts_kind, has_explicit_kinds, route_kinds_for}

abbrev advertised : Listener → Route → Text
advertised l route =
    lit "listener "
    ∷ quoted l.name
    ∷ lit " allows "
    ∷ lit route.kind
    ∷ lit " but speaks "
    ∷ lit l.protocol
    ∷ lit ", which carries "
    ∷ join_words " and " (route_kinds_for l.protocol)

abbrev speaks : Listener → Text
speaks l =
    lit "listener "
    ∷ quoted l.name
    ∷ lit " speaks "
    ∷ lit l.protocol
    ∷ lit ", which carries "
    ∷ join_words " and " (route_kinds_for l.protocol)

-- `setsRouteKinds` is HasExplicitKinds, word for word.
unfoldable pub sets_route_kinds : Listener → Bool
sets_route_kinds l = has_explicit_kinds l

-- One round of the loop over the listeners.
unfoldable pub verdict : Route → Listener → Verdict
verdict route l =
    if not (accepts_namespace l route.namespace)
    then skip
    else if is_empty (route_kinds_for l.protocol)
        || contains (route_kinds_for l.protocol) route.kind
    then stop
    else if sets_route_kinds l
    then (if not (accepts_kind l route.kind).0 then skip else report (advertised l route))
    else report (speaks l)

unfoldable pub why_no_listener_carries : List Listener → Route → Text
why_no_listener_carries listeners route = reasons (verdict route) "; " listeners

abbrev message : Route → Parent → Text → Diagnostic
message route parent reason = record {
  message =
      lit route.kind
      ∷ lit " "
      ∷ quoted route.name
      ∷ lit " attaches to "
      ∷ lit parent.kind
      ∷ lit " "
      ∷ quoted parent.name
      ∷ lit ", whose protocol cannot carry it: "
      ∷ (reason ++ lit "; the route is never programmed and its traffic is not served" ∷ []);
}

unfoldable pub judge : List (ObjectRef × List Listener) → Route → Parent → Option Diagnostic
judge by_owner route parent =
    if not (parent.group == ObjectKinds.group_name)
    then none
    else let reason = why_no_listener_carries (listeners_for by_owner parent) route in
      if blank reason then none else some (message route parent reason)

unfoldable pub check_func : LintContext → Object → List Diagnostic
check_func ctx object = elim (as_route object.k8s_object) [
  | none ↦ []
  | some route ↦ filter_map (judge (listeners_by_owner ctx) route) (parents_of route)
]
