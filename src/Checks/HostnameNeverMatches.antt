-- ===== src/Checks/HostnameNeverMatches.antt =====
-- pkg/templates/hostnamenevermatches
pub mod Disjoint
use gwlint.Prelude.{
  String, Option, none, some, List, [], ◌∷◌, ◌++◌, Bool, not, ◌==◌, is_empty, filter_map, map,
  or_else, if◌then◌else◌, Diagnostic, Text, lit, quoted, join, blank,
}
use gwlint.Prelude.Tests.{string_eq}
use gwlint.Api.{LintContext, Object}
use gwlint.ObjectKinds
use gwlint.GatewayApi.Route.{Route, as_route}
use gwlint.GatewayApi.Parent.{
  Parent, ObjectRef, Listener, parents_of, listeners_by_owner, listeners_for,
}
use gwlint.Checks.Reasons.{Verdict, skip, stop, report, reasons}
use gwlint.GatewayApi.Attach.{accepts_namespace, accepts_kind}
use gwlint.GatewayApi.Hostnames.{hostnames_intersect}

-- The source reads `*l.Hostname` only where the comparison failed, so where it is not nil.
abbrev offer : Listener → Text
offer l = lit "listener " ∷ quoted l.name ∷ lit " serves " ∷ quoted (or_else l.hostname "") ∷ []

-- One round of the loop over the listeners.
unfoldable pub verdict : Route → Listener → Verdict
verdict route l =
    if not (accepts_namespace l route.namespace)
    then skip
    else if not (accepts_kind l route.kind).0
    then skip
    else if hostnames_intersect l.hostname route.hostnames
    then stop
    else report (offer l)

unfoldable pub why_no_listener_matches : List Listener → Route → Text
why_no_listener_matches listeners route = reasons (verdict route) " and " listeners

abbrev hostname_list : List String → Text
hostname_list (h ∷ []) = lit "hostname " ∷ quoted h ∷ []
hostname_list hostnames = lit "hostnames " ∷ join ", " (map (λ h. quoted h ∷ []) hostnames)

abbrev message : Route → Parent → Text → Diagnostic
message route parent offer = record {
  message =
      lit route.kind
      ∷ lit " "
      ∷ quoted route.name
      ∷ lit " asks for "
      ∷ (hostname_list route.hostnames
          ++ lit " on "
            ∷ lit parent.kind
            ∷ lit " "
            ∷ quoted parent.name
            ∷ lit ", where "
            ∷ (offer
                ++ lit "; the hostnames cannot intersect, so no request can ever match the route"
                  ∷ []));
}

unfoldable pub judge : List (ObjectRef × List Listener) → Route → Parent → Option Diagnostic
judge by_owner route parent =
    if not (parent.group == ObjectKinds.group_name)
    then none
    else let offer = why_no_listener_matches (listeners_for by_owner parent) route in
      if blank offer then none else some (message route parent offer)

unfoldable pub check_func : LintContext → Object → List Diagnostic
check_func ctx object = elim (as_route object.k8s_object) [
  | none ↦ []
  | some route ↦
      if is_empty route.hostnames
      then []
      else filter_map (judge (listeners_by_owner ctx) route) (parents_of route)
]
