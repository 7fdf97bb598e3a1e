-- ===== src/Checks/ListenerNotFound/Missing.antt =====
-- What listener-not-found reports.
use gwlint.Prelude.{
  differs_iff, String, Option, none, some, List, [], ◌∷◌, false, ◌≡◌, ◌≢◌, ◌↔◌, refl, ◌==◌,
  extended, guarded_iff, is_empty, map, any-eq-false, some_unless, All, All-mono, iff_trans,
  Diagnostic,
}
use gwlint.Prelude.Tests.{string_eq}
use gwlint.ObjectKinds
use gwlint.Api.{LintContext, ListenerEntry}
use gwlint.GatewayApi.Route.{Route}
use gwlint.GatewayApi.Parent.{Parent, ObjectRef, ref_eq, ref_of, Listener, listeners_by_owner}
use gwlint.GatewayApi.Parent.Declared.{declared_by, lookup-listeners_by_owner}
use gwlint.GatewayApi.Parent.Selection.{entries_of, as_listener, declared_by-entries_of}
use gwlint.Checks.ListenerNotFound.{has_listener, judge_own, judge_section, judge}
use mathlib.Core.Path.{subst}

-- There are listeners, and none has the name.
abbrev Lacks : List Listener → String → Type 0
Lacks ls name = (is_empty ls ≡ false) × All (λ l. l.name ≢ name) ls

module _ (route : Route) (parent : Parent) where
  section_iff :
      (section : String) (ls : List Listener)
      → ((d : Diagnostic) × (judge_section route parent section ls ≡ some d))
        ↔ All (λ l. l.name ≢ section) ls
  unfolding has_listener
  section_iff section ls = iff_trans (some_unless (has_listener ls section) _) (
      iff_trans (any-eq-false (λ l. l.name == section) ls) (
        All-mono (λ l. (differs_iff l.name section).0) ls,
        All-mono (λ l. (differs_iff l.name section).1) ls,
      ))

  found_iff :
      (section : String) (ls : List Listener)
      → ((d : Diagnostic) × (elim (extended none ls) [
        | none ↦ none
        | some found ↦ judge_section route parent section found
      ]
            ≡ some d))
        ↔ Lacks ls section
  found_iff section [] = (λ (d, h). cc, λ (h, _). cc)
  found_iff section (l ∷ ls) =
      let (read, build) = section_iff section (l ∷ ls) in
      (λ h. (refl, read h), λ (_, absent). build absent)

  own_iff :
      (ctx : LintContext) (o : Option String)
      → ((d : Diagnostic) × (judge_own (listeners_by_owner ctx) route parent o ≡ some d)) ↔ (
          (section : String) × (o ≡ some section) × Lacks (declared_by ctx (ref_of parent)) section)
  own_iff ctx none = (λ (d, h). cc, λ (section, h, _). cc)
  own_iff ctx (some section) =
      rw (judge_own, lookup-listeners_by_owner ctx (ref_of parent))
        (
          λ h. (section, refl, (found_iff section (declared_by ctx (ref_of parent))).0 h),
          λ (name, same, lacks).
              (found_iff section (declared_by ctx (ref_of parent))).1
                (subst (Lacks (declared_by ctx (ref_of parent))) (cc) lacks),
        )

-- The same of the entries that the objects write down.
abbrev pub LacksEntry : List ListenerEntry → String → Type 0
LacksEntry es name = (is_empty es ≡ false) × All (λ e. e.name ≢ name) es

Lacks-LacksEntry :
    (ctx : LintContext) (ref : ObjectRef) (section : String)
    → Lacks (declared_by ctx ref) section ↔ LacksEntry (entries_of ctx ref) section
Lacks-LacksEntry ctx ref section = rw (declared_by-entries_of ctx ref) (
  λ (some_l, absent). (emptiness _ some_l, (names _).0 absent),
  λ (some_e, absent). (inhabited _ some_e, (names _).1 absent),
)
  where
    emptiness :
        (es : List ListenerEntry)
        → is_empty (map (as_listener ref) es) ≡ false
        → is_empty es ≡ false
    emptiness [] h = h
    emptiness (e ∷ es) h = refl

    inhabited :
        (es : List ListenerEntry)
        → is_empty es ≡ false
        → is_empty (map (as_listener ref) es) ≡ false
    inhabited [] h = h
    inhabited (e ∷ es) h = refl

    names :
        (es : List ListenerEntry)
        → All (λ l. l.name ≢ section) (map (as_listener ref) es) ↔ All (λ e. e.name ≢ section) es
    names [] = (λ h. h, λ h. h)
    names (e ∷ es) =
        let (forth, back) = names es in (λ (h, hs). (h, forth hs), λ (h, hs). (h, back hs))

-- A parentRef is reported exactly when it is in the Gateway API group and names a section, and the
-- v1 Gateways and ListenerSets that it resolves to declare some listener but none of that name.
pub listener_not_found_iff :
    (ctx : LintContext) (route : Route) (parent : Parent)
    → ((d : Diagnostic) × (judge (listeners_by_owner ctx) route parent ≡ some d)) ↔ (
        (parent.group ≡ ObjectKinds.group_name)
        × ((section : String) × (parent.section ≡ some section)
            × LacksEntry (entries_of ctx (ref_of parent)) section))
unfolding judge
listener_not_found_iff ctx route parent =
    let (forth, back) = own_iff route parent ctx parent.section in
    guarded_iff (parent.group == ObjectKinds.group_name)
      (judge_own (listeners_by_owner ctx) route parent parent.section)
      (string_eq.beq_iff parent.group ObjectKinds.group_name)
      (
        λ r. let (s, named, lacks) = forth r in (s, named, (Lacks-LacksEntry ctx _ s).0 lacks),
        λ (s, named, lacks). back (s, named, (Lacks-LacksEntry ctx _ s).1 lacks),
      )
