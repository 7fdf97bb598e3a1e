-- ===== src/Checks/AllWeightsZero.antt =====
-- pkg/templates/allweightszero
pub mod Unserved
use gwlint.Prelude.{
  ℕ, zero, suc, String, Option, none, some, List, [], ◌∷◌, ◌++◌, Bool, true, false, not, ◌==◌, ◌||◌,
  length, is_empty, all, filter_map, if◌then◌else◌, Diagnostic, lit, quoted, dec,
}
use gwlint.Api.{ℤ, pos, negsuc, ApiBackendRef, LintContext, Object}
use gwlint.GatewayApi.Route.{Route, as_route}
use gwlint.GatewayApi.Rules.{Rule, describe, rules_of}

abbrev pub is_zero : Option ℤ → Bool
is_zero none = false
is_zero (some (pos zero)) = true
is_zero (some (pos (suc n))) = false
is_zero (some (negsuc n)) = false

-- The loop leaves with false at the first reference whose weight is missing or is not 0.
unfoldable pub all_weights_zero : Rule → Bool
all_weights_zero rule = all (λ ref. is_zero ref.weight) rule.backend_refs

abbrev pub message : Route → Rule → Diagnostic
message route rule = record {
  message =
      lit route.kind
      ∷ lit " "
      ∷ quoted route.name
      ∷ lit " "
      ∷ (describe rule
          ++ (lit " sets weight 0 on every one of its "
              ∷ dec (length rule.backend_refs)
              ∷ lit " backendRefs, so requests matching the rule are forwarded to none of them"
              ∷ []));
}

unfoldable pub judge : Route → Rule → Option Diagnostic
judge route rule =
    if is_empty rule.backend_refs || not (all_weights_zero rule)
    then none
    else some (message route rule)

unfoldable pub check_func : LintContext → Object → List Diagnostic
check_func ctx object = elim (as_route object.k8s_object) [
  | none ↦ []
  | some route ↦ filter_map (judge route) (rules_of object.k8s_object)
]
