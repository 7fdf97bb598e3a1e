-- ===== src/Checks/HealthCheckWithoutFailover.antt =====
-- pkg/templates/healthcheckwithoutfailover. The selector is a parameter, as in
-- GatewayApi/PolicyCoverage.
use gwlint.Prelude.{
  String, Option, none, some, List, [], ◌∷◌, ◌++◌, Bool, false, not, ◌==◌, ◌&&◌, ◌||◌, filter,
  filter_map, if◌then◌else◌, Diagnostic, Text, lit, quoted, int,
}
use gwlint.Prelude.Tests.{string_eq}
use gwlint.Api.{
  ApiBackendRef, Backend, BackendEndpoint, FqdnEndpoint, IpEndpoint, UnixSocket, HealthCheck,
  BackendTrafficPolicy, K8sObject, Object, LabelSelectorRequirement, LintContext, backend,
  backend_traffic_policy,
}
use gwlint.ObjectKinds
use gwlint.GatewayApi.Route.{BackendRef, backend_namespace}
use gwlint.GatewayApi.PolicyCoverage.{
  CoveredRoute, section_covers_rule, is_parent_kind, backend_traffic_policy_coverage,
  more_specific_policy_covers,
}

abbrev health_checked : Option HealthCheck → Bool
health_checked none = false
health_checked (some hc) = hc.active || hc.passive

unfoldable pub has_health_check : BackendTrafficPolicy → Bool
has_health_check policy = health_checked policy.health_check

-- The field is set, to that text.
abbrev set_to : Option String → String → Bool
set_to none s = false
set_to (some t) s = t == s

unfoldable pub is_envoy_gateway_backend_ref : ApiBackendRef → Bool
is_envoy_gateway_backend_ref ref =
    if not (set_to ref.kind ObjectKinds.kind_backend)
    then false
    else set_to ref.group ObjectKinds.envoy_group_name

-- The loop of findBackend, which returns the first that fits.
abbrev is_backend : String → String → K8sObject → Option Backend
is_backend namespace name (backend b) =
    if b.meta.namespace == namespace && b.meta.name == name then some b else none
is_backend namespace name _ = none

abbrev first : List Backend → Option Backend
first [] = none
first (b ∷ bs) = some b

unfoldable pub find_backend : LintContext → String → String → Option Backend
find_backend ctx namespace name =
    first (filter_map (λ obj. is_backend namespace name obj.k8s_object) ctx.objects)

unfoldable pub describe_coverage : CoveredRoute → Text
describe_coverage coverage =
    if coverage.target.via_selector
    then lit "selects "
      ∷ lit coverage.route.kind
      ∷ lit " "
      ∷ quoted coverage.route.name
      ∷ lit ", which routes to"
      ∷ []
    else if is_parent_kind coverage.target.kind
    then lit "targets "
      ∷ lit coverage.target.kind
      ∷ lit " "
      ∷ quoted coverage.target.name
      ∷ lit ", whose attached "
      ∷ lit coverage.route.kind
      ∷ lit " "
      ∷ quoted coverage.route.name
      ∷ lit " routes to"
      ∷ []
    else lit "targets "
      ∷ lit coverage.target.kind
      ∷ lit " "
      ∷ quoted coverage.target.name
      ∷ lit ", which routes to"
      ∷ []

abbrev describe_unix : Option UnixSocket → Text
describe_unix none = lit "an endpoint of no recognized type" ∷ []
describe_unix (some socket) = lit "unix socket " ∷ quoted socket.path ∷ []

abbrev describe_ip : Option IpEndpoint → Option UnixSocket → Text
describe_ip none unix = describe_unix unix
describe_ip (some ip) unix = lit "IP " ∷ quoted ip.address ∷ lit " on port " ∷ int ip.port ∷ []

abbrev describe_fqdn : Option FqdnEndpoint → Option IpEndpoint → Option UnixSocket → Text
describe_fqdn none ip unix = describe_ip ip unix
describe_fqdn (some fqdn) ip unix =
    lit "FQDN " ∷ quoted fqdn.hostname ∷ lit " on port " ∷ int fqdn.port ∷ []

unfoldable pub describe_endpoint : BackendEndpoint → Text
describe_endpoint endpoint = describe_fqdn endpoint.fqdn endpoint.ip endpoint.unix

-- The pointer that the loop of soleBackend leaves: the only backendRef of the covered rules.
abbrev sole : List BackendRef → Option BackendRef
sole [] = none
sole (b ∷ []) = some b
sole (b ∷ c ∷ bs) = none

unfoldable pub sole_ref : CoveredRoute → Option BackendRef
sole_ref coverage =
    sole
      (filter (λ b. section_covers_rule coverage.rule_section b.rule) coverage.route.backend_refs)

abbrev with_endpoints : Option Backend → Option Backend
with_endpoints none = none
with_endpoints (some b) = if set_to b.type ObjectKinds.type_dynamic_resolver then none else some b

abbrev resolve_sole : LintContext → CoveredRoute → Option BackendRef → Option Backend
resolve_sole ctx coverage none = none
resolve_sole ctx coverage (some only) =
    if not (is_envoy_gateway_backend_ref only.ref)
    then none
    else with_endpoints
        (find_backend ctx (backend_namespace only coverage.route.namespace) only.ref.name)

-- Its second result is the number of endpoints of the first, and is read only with it.
unfoldable pub sole_backend : LintContext → CoveredRoute → Option Backend
unfolding sole_ref is_envoy_gateway_backend_ref find_backend
sole_backend ctx coverage = resolve_sole ctx coverage (sole_ref coverage)

abbrev pub message : CoveredRoute → Backend → BackendEndpoint → Diagnostic
message coverage b endpoint = record {
  message =
      lit "BackendTrafficPolicy configures a health check and "
      ∷ (describe_coverage coverage
          ++ (lit " Backend "
              ∷ quoted b.meta.name
              ∷ lit ", whose only endpoint is "
              ∷ (describe_endpoint endpoint
                  ++ lit
                      "; ejecting it empties the load balancing set, so requests fail fast instead of failing over"
                    ∷ [])));
}

abbrev report_only : CoveredRoute → Backend → List BackendEndpoint → Option Diagnostic
report_only coverage b [] = none
report_only coverage b (endpoint ∷ []) = some (message coverage b endpoint)
report_only coverage b (endpoint ∷ other ∷ endpoints) = none

abbrev report_sole : CoveredRoute → Option Backend → Option Diagnostic
report_sole coverage none = none
report_sole coverage (some b) = report_only coverage b b.endpoints

module _
    (label_selector_as_selector : List (String × String)
      → List LabelSelectorRequirement
      → Option (List (String × String) → Bool)) where
  -- The body of the loop over the covered routes.
  unfoldable pub judge : LintContext → BackendTrafficPolicy → CoveredRoute → Option Diagnostic
  judge ctx policy coverage =
      if coverage.inherited
        && more_specific_policy_covers label_selector_as_selector ctx coverage.route none policy
      then none
      else report_sole coverage (sole_backend ctx coverage)

  abbrev judge_policy : LintContext → BackendTrafficPolicy → List Diagnostic
  judge_policy ctx policy =
      if not (has_health_check policy)
      then []
      else filter_map (judge ctx policy)
          (backend_traffic_policy_coverage label_selector_as_selector ctx policy)

  abbrev judge_object : LintContext → K8sObject → List Diagnostic
  judge_object ctx (backend_traffic_policy policy) = judge_policy ctx policy
  judge_object ctx _ = []

  unfoldable pub check_func : LintContext → Object → List Diagnostic
  check_func ctx object = judge_object ctx object.k8s_object
