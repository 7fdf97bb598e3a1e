-- ===== src/Checks/Exclusive.antt =====
-- route-not-permitted and protocol-mismatch split the reasons why a listener takes no route.
use mathlib.Core.Bool.{false≢true}
use gwlint.Prelude.{◌≡◌, sym, ◌∙◌, inl, inr, none, some, Any_of_All, Option-cases, Diagnostic}
use gwlint.Api.{LintContext}
use gwlint.GatewayApi.Route.{Route}
use gwlint.GatewayApi.Parent.{Parent, Listener, listeners_by_owner}
use gwlint.GatewayApi.Parent.Selection.{selected}
use gwlint.Checks.RouteNotPermitted
use gwlint.Checks.RouteNotPermitted.Refusal.{Refuses}
use gwlint.Checks.ProtocolMismatch
use gwlint.Checks.ProtocolMismatch.Carriage.{Mismatches}

not_both : (route : Route) (l : Listener) → Refuses route l → ¬ Mismatches route l
not_both route l (inl h) (ns, _, _, _) = false≢true (sym h ∙ ns)
not_both route l (inr (explicit, h)) (_, _, _, inl no_kinds) = false≢true (sym no_kinds ∙ explicit)
not_both route l (inr (explicit, h)) (_, _, _, inr accepted) = false≢true (sym h ∙ accepted)

-- A parentRef that route-not-permitted reports is not reported by protocol-mismatch, over any
-- manifest set and however many listeners the parentRef selects.
pub reported_once :
    (ctx : LintContext) (route : Route) (parent : Parent) (d : Diagnostic)
    → RouteNotPermitted.judge (listeners_by_owner ctx) route parent ≡ some d
    → ProtocolMismatch.judge (listeners_by_owner ctx) route parent ≡ none
reported_once ctx route parent d e =
    elim (Option-cases (ProtocolMismatch.judge (listeners_by_owner ctx) route parent)) [
      | inl quiet ↦ quiet
      | inr twice ↦
          let (_, (refused, _)) =
            (RouteNotPermitted.Refusal.route_not_permitted_iff ctx route parent).0 (d, e) in
          let (_, (_, mismatched)) =
            (ProtocolMismatch.Carriage.protocol_mismatch_iff ctx route parent).0 twice in
          let (l, refuses, mismatches) = Any_of_All (selected ctx parent) refused mismatched in
          absurd (not_both route l refuses mismatches)
    ]
