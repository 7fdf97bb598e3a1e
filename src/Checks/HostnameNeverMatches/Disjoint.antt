-- ===== src/Checks/HostnameNeverMatches/Disjoint.antt =====
-- When hostname-never-matches reports a parentRef.
use gwlint.Prelude.{
  eq-false_of_ne, some_unless, iff_trans, guarded_iff, some, true, false, ◌≡◌, ◌↔◌, sym, All, Any,
  Diagnostic, Text, blank, arith,
}
use mathlib.Core.Path.{subst}
use gwlint.Prelude.Tests.{string_eq}
use gwlint.ObjectKinds
use gwlint.GatewayApi.Hostnames.Serving.{CanShare, hostnames_intersect_iff}
use gwlint.Api.{LintContext}
use gwlint.GatewayApi.Route.{Route}
use gwlint.GatewayApi.Parent.{Parent, Listener, listeners_by_owner}
use gwlint.GatewayApi.Parent.Selection.{selected, listeners_for-selected}
use gwlint.GatewayApi.Attach.{accepts_namespace, accepts_kind}
use gwlint.Checks.Reasons.{stop, report, IsReport, reasons, reasons_judged}
use gwlint.Checks.HostnameNeverMatches.{verdict, why_no_listener_matches, judge, offer}

-- The listener admits the route, by namespace and by kind.
abbrev pub Admits : Route → Listener → Type 0
Admits route l =
    (accepts_namespace l route.namespace ≡ true) × ((accepts_kind l route.kind).0 ≡ true)

-- It admits the route, and some host is served by its hostname and by one of the route's, or one
-- side sets none.
abbrev pub CanMatch : Route → Listener → Type 0
CanMatch route l = Admits route l × CanShare l.hostname route.hostnames

-- It admits the route, but no host is served by its hostname and by one of the route's.
abbrev pub NeverMatches : Route → Listener → Type 0
NeverMatches route l = Admits route l × (¬ CanShare l.hostname route.hostnames)

verdict_worded :
    (route : Route) (l : Listener) (t : Text) → verdict route l ≡ report t → blank t ≡ false
unfolding verdict
verdict_worded route l t h = ground arith

verdict-eq-stop : (route : Route) (l : Listener) → (verdict route l ≡ stop) ↔ CanMatch route l
unfolding verdict
verdict-eq-stop route l =
    let (shares, share) = hostnames_intersect_iff l.hostname route.hostnames in
    (
      λ e. ((ground arith, ground arith), shares (ground arith)),
      λ ((ns, kind), s). let h = share s in ground arith,
    )

IsReport-verdict :
    (route : Route) (l : Listener) → IsReport (verdict route l) ↔ NeverMatches route l
unfolding verdict
IsReport-verdict route l =
    let (shares, share) = hostnames_intersect_iff l.hostname route.hostnames in
    (
      λ (t, e). ((ground arith, ground arith), λ s. let h = share s in ground arith),
      λ ((ns, kind), apart).
          let h = eq-false_of_ne (λ h. apart (shares h)) in (offer l, ground arith),
    )

-- A parentRef of a route is reported exactly when it is in the Gateway API group, no listener that
-- it selects admits the route and can share a host with it, and some listener that it selects
-- admits the route and shares no host with it.
pub disjoint_hostnames_iff :
    (ctx : LintContext) (route : Route) (parent : Parent)
    → ((d : Diagnostic) × (judge (listeners_by_owner ctx) route parent ≡ some d)) ↔ (
        (parent.group ≡ ObjectKinds.group_name)
        × (All (λ l. ¬ CanMatch route l) (selected ctx parent)
            × Any (NeverMatches route) (selected ctx parent)))
unfolding judge why_no_listener_matches
disjoint_hostnames_iff ctx route parent =
    guarded_iff _ _ (string_eq.beq_iff parent.group ObjectKinds.group_name) (
      iff_trans (some_unless _ _) (
        subst
          (λ ls. (blank (reasons (verdict route) " and " ls) ≡ false) ↔ (
            All (λ l. ¬ CanMatch route l) (selected ctx parent)
            × Any (NeverMatches route) (selected ctx parent)))
          (sym (listeners_for-selected ctx parent))
          (reasons_judged (verdict route) (verdict_worded route) (CanMatch route)
            (NeverMatches route) (verdict-eq-stop route) (IsReport-verdict route) " and "
            (selected ctx parent))))
