-- ===== src/Checks/AllWeightsZero/Unserved.antt =====
-- Which routes all-weights-zero reports.
use mathlib.Core.Path.{subst}
use gwlint.Prelude.{
  zero, suc, Option, none, some, Bool, true, false, not, ◌||◌, ◌≡◌, ◌↔◌, refl, sym, iff_trans,
  is_empty, all_iff, filter_map, filter_map_nonempty, Any, All, All-mono, Diagnostic, if◌then◌else◌,
}
use gwlint.Api.{ℤ, pos, negsuc, LintContext, Object}
use gwlint.GatewayApi.Route.{Route, as_route}
use gwlint.GatewayApi.Rules.{Rule, rules_of}
use gwlint.Checks.AllWeightsZero.{is_zero, all_weights_zero, message, judge, check_func}

is_zero_iff : (o : Option ℤ) → (is_zero o ≡ true) ↔ (o ≡ some (pos 0))
is_zero_iff none = (λ h. cc, λ h. cc)
is_zero_iff (some (pos zero)) = (λ _. refl, λ _. refl)
is_zero_iff (some (pos (suc n))) = (λ h. cc, λ h. cc)
is_zero_iff (some (negsuc n)) = (λ h. cc, λ h. cc)

-- The rule has a backendRef, and each of them has the weight 0 written out.
abbrev pub SendsNowhere : Rule → Type 0
SendsNowhere rule =
    (is_empty rule.backend_refs ≡ false) × All (λ ref. ref.weight ≡ some (pos 0)) rule.backend_refs

weights_iff :
    (rule : Rule)
    → (all_weights_zero rule ≡ true) ↔ All (λ ref. ref.weight ≡ some (pos 0)) rule.backend_refs
unfolding all_weights_zero
weights_iff rule = iff_trans (all_iff (λ ref. is_zero ref.weight) rule.backend_refs) (
  All-mono (λ ref. (is_zero_iff ref.weight).0) rule.backend_refs,
  All-mono (λ ref. (is_zero_iff ref.weight).1) rule.backend_refs,
)

reports_when :
    (a b : Bool) (d : Diagnostic)
    → ((x : Diagnostic) × ((if a || not b then none else some d) ≡ some x))
      ↔ ((a ≡ false) × (b ≡ true))
reports_when true b d = (λ (x, e). cc, λ (h, _). cc)
reports_when false true d = (λ _. (refl, refl), λ _. (d, refl))
reports_when false false d = (λ (x, e). cc, λ (_, h). cc)

judged_iff :
    (route : Route) (rule : Rule)
    → ((d : Diagnostic) × (judge route rule ≡ some d)) ↔ SendsNowhere rule
unfolding judge
judged_iff route rule =
    let (read, build) =
      reports_when (is_empty rule.backend_refs) (all_weights_zero rule) (message route rule) in
    (
      λ h. let (full, zeros) = read h in (full, (weights_iff rule).0 zeros),
      λ (full, zeros). build (full, (weights_iff rule).1 zeros),
    )

check_func-filter_map :
    (ctx : LintContext) (object : Object) (route : Route)
    → as_route object.k8s_object ≡ some route
    → check_func ctx object ≡ filter_map (judge route) (rules_of object.k8s_object)
unfolding check_func
check_func-filter_map ctx object route e = rw (e, check_func)

-- A route is reported exactly when one of its rules has at least one backendRef and the weight 0
-- written on each of them.
pub all_weights_zero_iff :
    (ctx : LintContext) (object : Object) (route : Route)
    → as_route object.k8s_object ≡ some route
    → (is_empty (check_func ctx object) ≡ false) ↔ Any SendsNowhere (rules_of object.k8s_object)
all_weights_zero_iff ctx object route e =
    subst (λ ds. (is_empty ds ≡ false) ↔ Any SendsNowhere (rules_of object.k8s_object))
      (sym (check_func-filter_map ctx object route e))
      (filter_map_nonempty (judge route) SendsNowhere (judged_iff route)
        (rules_of object.k8s_object))
