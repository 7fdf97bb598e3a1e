-- ===== src/Checks/RouteNotPermitted/Refusal.antt =====
-- When route-not-permitted reports a parentRef.
use mathlib.Core.Path.{subst}
use mathlib.Core.Bool.{false≢true}
use gwlint.Prelude.{
  some_unless_either, guarded_iff, String, Option, none, some, List, [], ◌∷◌, true, false, ◌≡◌, ◌≢◌,
  ◌↔◌, ◌⊎◌, inl, inr, refl, sym, ◌∙◌, is_empty, map, All, Any, All-mono, Diagnostic, Text, blank,
  Bool-cases, arith, extended,
}
use gwlint.Prelude.Tests.{string_eq}
use gwlint.ObjectKinds
use gwlint.Api.{LintContext}
use gwlint.GatewayApi.Route.{Route}
use gwlint.GatewayApi.Parent.{Parent, Listener, ref_eq, ref_of, listeners_by_owner, select_section}
use gwlint.GatewayApi.Parent.Selection.{
  as_listener, entries_of, selected, lookup-listeners_by_owner-entries_of,
}
use gwlint.GatewayApi.Attach.{accepts_namespace, accepts_kind, has_explicit_kinds}
use gwlint.Checks.Reasons.{stop, report, IsReport, reasons_iff}
use gwlint.Checks.RouteNotPermitted.{
  verdict, why_none_admit, judge_present, judge_found, judge, listeners_named,
}

-- The listener refuses the route, by its namespace or by kinds of the listener's own.
abbrev pub Refuses : Route → Listener → Type 0
Refuses route l =
    (accepts_namespace l route.namespace ≡ false)
    ⊎ (has_explicit_kinds l ≡ true) × ((accepts_kind l route.kind).0 ≡ false)

verdict_worded :
    (route : Route) (l : Listener) (t : Text) → verdict route l ≡ report t → blank t ≡ false
unfolding verdict
verdict_worded route l t h = ground arith

Refuses-of_ne : (route : Route) (l : Listener) → verdict route l ≢ stop → Refuses route l
unfolding verdict
Refuses-of_ne route l h = ground arith

verdict_of_Refuses :
    (route : Route) (l : Listener)
    → Refuses route l
    → (verdict route l ≢ stop) × IsReport (verdict route l)
unfolding verdict
verdict_of_Refuses route l (inl h) = rw h (λ e. cc, (_, refl))
verdict_of_Refuses route l (inr (explicit, h)) =
    elim (Bool-cases (accepts_namespace l route.namespace)) [
      | inl here ↦ rw (here, explicit, h) (λ e. cc, (_, refl))
      | inr refused ↦ rw refused (λ e. cc, (_, refl))
    ]

-- The candidates give a reason exactly when there is one and every one of them refuses the route.
pub why_none_admit_iff :
    (ls : List Listener) (route : Route)
    → (blank (why_none_admit ls route) ≡ false) ↔ (All (Refuses route) ls × (is_empty ls ≡ false))
unfolding why_none_admit
why_none_admit_iff ls route =
    let (said, says) = reasons_iff (verdict route) (verdict_worded route) "; " ls in
    (
      λ h.
          let (free, some_report) = said h in
          (All-mono (λ l. Refuses-of_ne route l) ls free, nonempty ls some_report),
      λ (refused, some_l). says (
        All-mono (λ l r. (verdict_of_Refuses route l r).0) ls refused,
        reported ls refused some_l,
      ),
    )
  where
    nonempty : (ls : List Listener) → Any (λ l. IsReport (verdict route l)) ls → is_empty ls ≡ false
    nonempty [] h = absurd h
    nonempty (l ∷ ls) h = refl

    reported :
        (ls : List Listener)
        → All (Refuses route) ls
        → is_empty ls ≡ false
        → Any (λ l. IsReport (verdict route l)) ls
    reported [] _ h = cc
    reported (l ∷ ls) (r, _) h = inl (verdict_of_Refuses route l r).1

select_section-nil : (section : Option String) → is_empty (select_section [] section) ≡ true
select_section-nil none = refl
select_section-nil (some name) = refl

judge_present_iff :
    (route : Route) (parent : Parent) (ls : List Listener)
    → ((d : Diagnostic) × (judge_present route parent ls ≡ some d)) ↔ (
        All (Refuses route) (select_section ls parent.section)
        × (is_empty (select_section ls parent.section) ≡ false))
unfolding judge_present listeners_named
judge_present_iff route parent ls =
    let (shown, shows) = some_unless_either (is_empty (select_section ls parent.section)) _ _ in
    let (refused, refuses) = why_none_admit_iff (select_section ls parent.section) route in
    (λ h. refused (shown h).1, λ (all, some_l). shows (some_l, refuses (all, some_l)))

judge_found_iff :
    (route : Route) (parent : Parent) (ls : List Listener)
    → ((d : Diagnostic) × (judge_found route parent (extended none ls) ≡ some d)) ↔ (
        All (Refuses route) (select_section ls parent.section)
        × (is_empty (select_section ls parent.section) ≡ false))
judge_found_iff route parent [] = (
  λ (d, e). cc,
  λ (_, some_l). absurd (false≢true (sym some_l ∙ select_section-nil parent.section)),
)
judge_found_iff route parent (l ∷ ls) = judge_present_iff route parent (l ∷ ls)

-- A parentRef of a route is reported exactly when it is in the Gateway API group, it selects a
-- listener of the manifest set, and every listener that it selects refuses the route: for its
-- namespace, or for its kind where the listener lists kinds of its own.
pub route_not_permitted_iff :
    (ctx : LintContext) (route : Route) (parent : Parent)
    → ((d : Diagnostic) × (judge (listeners_by_owner ctx) route parent ≡ some d)) ↔ (
        (parent.group ≡ ObjectKinds.group_name)
        × (All (Refuses route) (selected ctx parent) × (is_empty (selected ctx parent) ≡ false)))
unfolding judge
route_not_permitted_iff ctx route parent =
    guarded_iff _ _ (string_eq.beq_iff parent.group ObjectKinds.group_name) (
      subst
        (λ o.
          ((d : Diagnostic) × (judge_found route parent o ≡ some d))
          ↔ (All (Refuses route) (selected ctx parent) × (is_empty (selected ctx parent) ≡ false)))
        (sym (lookup-listeners_by_owner-entries_of ctx (ref_of parent)))
        (judge_found_iff route parent
          (map (as_listener (ref_of parent)) (entries_of ctx (ref_of parent)))))
