-- ===== src/Checks/FqdnBackendColdStart/Template.antt =====
-- pkg/templates/fqdnbackendcoldstart/template.go
use gwlint.Prelude.{
  String, Option, none, some, List, [], ◌∷◌, ◌++◌, Bool, false, not, ◌==◌, ◌&&◌, or_else,
  filter_map, flat_map, if◌then◌else◌, Diagnostic, Text, lit, quoted,
}
use gwlint.Prelude.Tests.{string_eq}
use gwlint.Api.{
  ApiBackendRef, Backend, FqdnEndpoint, BackendTrafficPolicy, K8sObject, Object,
  LabelSelectorRequirement, LintContext, backend, backend_traffic_policy,
}
use gwlint.ObjectKinds
use gwlint.GatewayApi.Route.{Route, BackendRef}
use gwlint.Checks.FqdnBackendColdStart.Coverage.{
  TargetRef, CoveredRoute, is_parent_kind, section_covers_rule, has_health_check, policy_coverage,
  is_overridden,
}

-- The field is set, to that text.
abbrev set_to : Option String → String → Bool
set_to none s = false
set_to (some t) s = t == s

unfoldable pub is_envoy_gateway_backend_ref : ApiBackendRef → Bool
is_envoy_gateway_backend_ref ref =
    if not (set_to ref.kind ObjectKinds.kind_backend)
    then false
    else set_to ref.group ObjectKinds.envoy_group_name

-- The loop of findBackend, which returns the first that fits.
abbrev is_backend : String → String → K8sObject → Option Backend
is_backend namespace name (backend b) =
    if b.meta.namespace == namespace && b.meta.name == name then some b else none
is_backend namespace name _ = none

abbrev first : List Backend → Option Backend
first [] = none
first (b ∷ bs) = some b

unfoldable pub find_backend : LintContext → String → String → Option Backend
find_backend ctx namespace name =
    first (filter_map (λ obj. is_backend namespace name obj.k8s_object) ctx.objects)

-- The body of the loop of fqdnHostnames.
abbrev hostname_of : Option FqdnEndpoint → Option String
hostname_of none = none
hostname_of (some fqdn) = if fqdn.hostname == "" then none else some fqdn.hostname

unfoldable pub fqdn_hostnames : Backend → List String
fqdn_hostnames b = filter_map (λ endpoint. hostname_of endpoint.fqdn) b.endpoints

unfoldable pub describe_coverage : TargetRef → Route → Text
describe_coverage ref route =
    if ref.via_selector
    then lit "selects "
      ∷ lit route.kind
      ∷ lit " "
      ∷ quoted route.name
      ∷ lit ", which routes to"
      ∷ []
    else if is_parent_kind ref.kind
    then lit "targets "
      ∷ lit ref.kind
      ∷ lit " "
      ∷ quoted ref.name
      ∷ lit ", whose attached "
      ∷ lit route.kind
      ∷ lit " "
      ∷ quoted route.name
      ∷ lit " routes to"
      ∷ []
    else lit "targets " ∷ lit ref.kind ∷ lit " " ∷ quoted ref.name ∷ lit ", which routes to" ∷ []

-- All names but the last joined by commas, and then the last.
abbrev enumerate : List String → Text
enumerate [] = []
enumerate (h ∷ []) = quoted h ∷ []
enumerate (h ∷ i ∷ []) = quoted h ∷ lit " and " ∷ quoted i ∷ []
enumerate (h ∷ i ∷ j ∷ hs) = quoted h ∷ lit ", " ∷ enumerate (i ∷ j ∷ hs)

-- It is called with one name at least.
abbrev pub describe_endpoints : List String → Text
describe_endpoints [] = []
describe_endpoints (h ∷ []) = lit "FQDN endpoint " ∷ quoted h ∷ []
describe_endpoints (h ∷ i ∷ hs) = lit "FQDN endpoints " ∷ enumerate (h ∷ i ∷ hs)

abbrev pub message : TargetRef → Route → Backend → List String → Diagnostic
message ref route b hostnames = record {
  message =
      lit "BackendTrafficPolicy has no health check, but "
      ∷ (describe_coverage ref route
          ++ (lit " Backend "
              ∷ quoted b.meta.name
              ∷ lit " with "
              ∷ (describe_endpoints hostnames
                  ++ lit
                      "; this backend resolves via DNS at startup and can 503 before the name resolves"
                    ∷ [])));
}

abbrev report_hostnames : TargetRef → Route → Backend → List String → Option Diagnostic
report_hostnames ref route b [] = none
report_hostnames ref route b (h ∷ hs) = some (message ref route b (h ∷ hs))

abbrev report_backend : TargetRef → Route → Option Backend → Option Diagnostic
report_backend ref route none = none
report_backend ref route (some b) = report_hostnames ref route b (fqdn_hostnames b)

module _
    (label_selector_as_selector : List (String × String)
      → List LabelSelectorRequirement
      → Option (List (String × String) → Bool)) where
  -- The body of the inner loop, over the backendRefs of a covered route.
  unfoldable pub judge :
      LintContext → BackendTrafficPolicy → CoveredRoute → BackendRef → Option Diagnostic
  judge ctx policy coverage b =
      if not (section_covers_rule coverage.rule_section b.rule)
      then none
      else if not (is_envoy_gateway_backend_ref b.ref)
      then none
      else if coverage.inherited
          && is_overridden label_selector_as_selector ctx coverage.route b.rule policy
      then none
      else report_backend coverage.ref coverage.route
          (find_backend ctx (or_else b.ref.namespace coverage.route.namespace) b.ref.name)

  abbrev judge_policy : LintContext → BackendTrafficPolicy → List Diagnostic
  judge_policy ctx policy =
      if has_health_check policy
      then []
      else flat_map (λ coverage. filter_map (judge ctx policy coverage) coverage.route.backend_refs)
          (policy_coverage label_selector_as_selector ctx policy)

  abbrev judge_object : LintContext → K8sObject → List Diagnostic
  judge_object ctx (backend_traffic_policy policy) = judge_policy ctx policy
  judge_object ctx _ = []

  unfoldable pub check_func : LintContext → Object → List Diagnostic
  check_func ctx object = judge_object ctx object.k8s_object
