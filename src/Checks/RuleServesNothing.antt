-- ===== src/Checks/RuleServesNothing.antt =====
-- pkg/templates/ruleservesnothing
pub mod Unserved
use gwlint.Prelude.{
  String, Option, none, some, List, [], ◌∷◌, ◌++◌, Bool, not, ◌==◌, ◌||◌, any, is_empty, filter_map,
  contains, if◌then◌else◌, Diagnostic, lit, quoted,
}
use gwlint.Prelude.Tests.{string_eq}
use gwlint.Api.{LintContext, Object}
use gwlint.ObjectKinds
use gwlint.GatewayApi.Route.{Route, as_route}
use gwlint.GatewayApi.Rules.{Rule, describe, rules_of}

abbrev pub terminating_filters : List String
terminating_filters = ObjectKinds.filter_request_redirect ∷ ObjectKinds.filter_extension_ref ∷ []

unfoldable pub serves_a_response : Rule → Bool
serves_a_response rule = any (λ filter_type. contains terminating_filters filter_type) rule.filters

abbrev pub message : Route → Rule → Diagnostic
message route rule = record {
  message =
      lit route.kind
      ∷ lit " "
      ∷ quoted route.name
      ∷ lit " "
      ∷ (describe rule
          ++ lit
              " has no backendRefs and no filter that produces a response, so requests matching the rule are answered with an error instead of being served"
            ∷ []);
}

unfoldable pub judge : Route → Rule → Option Diagnostic
judge route rule =
    if not (is_empty rule.backend_refs) || serves_a_response rule
    then none
    else some (message route rule)

unfoldable pub check_func : LintContext → Object → List Diagnostic
check_func ctx object = elim (as_route object.k8s_object) [
  | none ↦ []
  | some route ↦ filter_map (judge route) (rules_of object.k8s_object)
]
