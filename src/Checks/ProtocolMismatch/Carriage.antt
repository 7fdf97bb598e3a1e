-- ===== src/Checks/ProtocolMismatch/Carriage.antt =====
-- When protocol-mismatch reports a parentRef.
use gwlint.Prelude.{
  some_unless, iff_trans, guarded_iff, some, true, false, ◌≡◌, ◌↔◌, ◌⊎◌, inl, inr, sym, is_empty,
  eq-false_of_ne, ◌∙◌, All, Any, Diagnostic, Text, blank, Bool-cases, arith,
}
use mathlib.Core.Path.{subst}
use mathlib.Core.Bool.{false≢true}
use gwlint.Prelude.Tests.{string_eq}
use gwlint.ObjectKinds
use gwlint.Api.{LintContext}
use gwlint.GatewayApi.Route.{Route}
use gwlint.GatewayApi.Parent.{Parent, Listener, listeners_by_owner}
use gwlint.GatewayApi.Parent.Selection.{selected, listeners_for-selected}
use gwlint.GatewayApi.Attach.{accepts_namespace, accepts_kind, has_explicit_kinds, route_kinds_for}
use gwlint.GatewayApi.Attach.Kinds.{
  IsStandard, Bears, route_kinds_for-IsStandard, route_kinds_for-Bears,
}
use gwlint.Checks.Reasons.{stop, report, IsReport, reasons, reasons_judged}
use gwlint.Checks.ProtocolMismatch.{
  verdict, why_no_listener_carries, judge, sets_route_kinds, advertised, speaks,
}

-- The listener admits the route's namespace, and its protocol carries the route's kind or is not
-- one of the Gateway API's own.
abbrev pub Carries : Route → Listener → Type 0
Carries route l =
    (accepts_namespace l route.namespace ≡ true)
    × ((¬ IsStandard l.protocol) ⊎ Bears l.protocol route.kind)

-- The listener admits the route's namespace, its protocol is one of the Gateway API's own and does
-- not carry the route's kind, and no list of kinds of its own already refuses the route.
abbrev pub Mismatches : Route → Listener → Type 0
Mismatches route l =
    (accepts_namespace l route.namespace ≡ true)
    × IsStandard l.protocol
    × (¬ Bears l.protocol route.kind)
    × ((has_explicit_kinds l ≡ false) ⊎ ((accepts_kind l route.kind).0 ≡ true))

verdict_worded :
    (route : Route) (l : Listener) (t : Text) → verdict route l ≡ report t → blank t ≡ false
unfolding verdict
verdict_worded route l t h = ground arith

verdict-eq-stop : (route : Route) (l : Listener) → (verdict route l ≡ stop) ↔ Carries route l
unfolding verdict
verdict-eq-stop route l =
    let (standard, known) = route_kinds_for-IsStandard l.protocol in
    let (bears, listed) = route_kinds_for-Bears l.protocol route.kind in
    (
      λ e. (
        ground arith,
        elim (Bool-cases (is_empty (route_kinds_for l.protocol))) [
          | inl empty ↦ inl (λ s. false≢true (sym (known s) ∙ empty))
          | inr some_kind ↦ inr (bears (ground arith))
        ],
      ),
      λ (ns, h). elim h [
        | inl other ↦ elim (Bool-cases (is_empty (route_kinds_for l.protocol))) [
          | inl empty ↦ ground arith
          | inr some_kind ↦ absurd (other (standard some_kind))
        ]
        | inr b ↦ let e = listed b in ground arith
      ],
    )

IsReport-verdict : (route : Route) (l : Listener) → IsReport (verdict route l) ↔ Mismatches route l
unfolding verdict sets_route_kinds
IsReport-verdict route l =
    let (standard, known) = route_kinds_for-IsStandard l.protocol in
    let (bears, listed) = route_kinds_for-Bears l.protocol route.kind in
    (
      λ (t, e). (
        ground arith,
        standard (ground arith),
        λ b. (let h = listed b in ground arith),
        ground arith,
      ),
      λ (ns, s, other, own).
          let some_kind = known s in
          let unlisted = eq-false_of_ne (λ h. other (bears h)) in
          elim (Bool-cases (has_explicit_kinds l)) [
            | inl explicit ↦ (advertised l route, ground arith)
            | inr default ↦ (speaks l, ground arith)
          ],
    )

-- A parentRef of a route is reported exactly when it is in the Gateway API group, no listener that
-- it selects carries the route, and some listener that it selects mismatches it.
pub protocol_mismatch_iff :
    (ctx : LintContext) (route : Route) (parent : Parent)
    → ((d : Diagnostic) × (judge (listeners_by_owner ctx) route parent ≡ some d)) ↔ (
        (parent.group ≡ ObjectKinds.group_name)
        × (All (λ l. ¬ Carries route l) (selected ctx parent)
            × Any (Mismatches route) (selected ctx parent)))
unfolding judge why_no_listener_carries
protocol_mismatch_iff ctx route parent =
    guarded_iff _ _ (string_eq.beq_iff parent.group ObjectKinds.group_name) (
      iff_trans (some_unless _ _) (
        subst
          (λ ls. (blank (reasons (verdict route) "; " ls) ≡ false) ↔ (
            All (λ l. ¬ Carries route l) (selected ctx parent)
            × Any (Mismatches route) (selected ctx parent)))
          (sym (listeners_for-selected ctx parent))
          (reasons_judged (verdict route) (verdict_worded route) (Carries route) (Mismatches route)
            (verdict-eq-stop route) (IsReport-verdict route) "; " (selected ctx parent))))
