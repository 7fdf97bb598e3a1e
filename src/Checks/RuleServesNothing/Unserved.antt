-- ===== src/Checks/RuleServesNothing/Unserved.antt =====
-- Which rules rule-serves-nothing reports.
use mathlib.Core.Bool.{false≢true}
use gwlint.Prelude.{
  String, some, List, [], ◌∷◌, true, false, ◌≡◌, ◌↔◌, ◌⊎◌, inl, inr, refl, sym, ◌∙◌, arith,
  is_empty, Any, any_iff, Any-mono, contains, filter_map_nonempty, Bool-cases, Diagnostic,
}
use gwlint.Prelude.Tests.{string_eq}
use gwlint.ObjectKinds
use gwlint.Api.{LintContext, Object}
use gwlint.GatewayApi.Route.{Route, as_route}
use gwlint.GatewayApi.Rules.{Rule, rules_of}
use gwlint.Checks.RuleServesNothing.{terminating_filters, serves_a_response, judge, check_func}

-- The filter answers a request itself.
abbrev pub Answers : String → Type 0
Answers filter_type =
    (filter_type ≡ ObjectKinds.filter_request_redirect)
    ⊎ (filter_type ≡ ObjectKinds.filter_extension_ref)

-- Neither a backend nor a filter answers what the rule matches.
abbrev pub Unanswered : Rule → Type 0
Unanswered rule = (rule.backend_refs ≡ []) × ¬ Any Answers rule.filters

answering_iff : (f : String) → (contains terminating_filters f ≡ true) ↔ Answers f
answering_iff f = ground (
  arith,
  string_eq.beq_iff ObjectKinds.filter_request_redirect f,
  string_eq.beq_iff ObjectKinds.filter_extension_ref f,
)

response_iff : (rule : Rule) → (serves_a_response rule ≡ true) ↔ Any Answers rule.filters
unfolding serves_a_response
response_iff rule =
    let (found, kept) = any_iff (λ f. contains terminating_filters f) rule.filters in
    (
      λ h. Any-mono (λ f e. (answering_iff f).0 e) rule.filters (found h),
      λ h. kept (Any-mono (λ f e. (answering_iff f).1 e) rule.filters h),
    )

is_empty_iff {ℓ} : {A : Type ℓ} (xs : List A) → (is_empty xs ≡ true) ↔ (xs ≡ [])
is_empty_iff [] = (λ h. refl, λ h. refl)
is_empty_iff (x ∷ xs) = (λ h. cc, λ h. cc)

judge_iff :
    (route : Route) (rule : Rule)
    → ((d : Diagnostic) × (judge route rule ≡ some d)) ↔ Unanswered rule
unfolding judge
judge_iff route rule =
    let (forth, back) = response_iff rule in
    let (empty, unset) = is_empty_iff rule.backend_refs in
    elim (Bool-cases (is_empty rule.backend_refs)) [
      | inr e ↦ rw e (λ (d, k). cc, λ (k, _). absurd (false≢true (sym e ∙ unset k)))
      | inl e ↦ elim (Bool-cases (serves_a_response rule)) [
        | inl f ↦ rw (e, f) (λ (d, k). cc, λ (_, k). absurd (k (forth f)))
        | inr f ↦ rw (e, f) (λ _. (empty e, λ k. false≢true (sym f ∙ back k)), λ _. (_, refl))
      ]
    ]

-- Of a route, rule-serves-nothing reports something exactly when a rule has no backendRefs and no
-- filter that answers a request.
pub rule_serves_nothing_iff :
    (ctx : LintContext) (object : Object) (route : Route)
    → as_route object.k8s_object ≡ some route
    → (is_empty (check_func ctx object) ≡ false) ↔ Any Unanswered (rules_of object.k8s_object)
unfolding check_func
rule_serves_nothing_iff ctx object route e =
    rw (check_func, e)
      (filter_map_nonempty (judge route) Unanswered (judge_iff route) (rules_of object.k8s_object))
