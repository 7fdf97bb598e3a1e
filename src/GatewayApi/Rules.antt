-- ===== src/GatewayApi/Rules.antt =====
-- pkg/gatewayapi/rules.go and rulenames.go: a route's rules, one entry each, and their names.
pub mod Laws
use gwlint.Prelude.{
  ℕ, suc, String, Option, none, some, List, [], ◌∷◌, map, ◌==◌, if◌then◌else◌, Text, lit, quoted,
  dec,
}
use gwlint.Prelude.Tests.{string_eq}
use gwlint.Api.{
  ApiBackendRef, HttpRouteRule, GrpcRouteRule, StreamRouteRule, K8sObject, http_route_v1,
  http_route_v1beta1, grpc_route_v1, grpc_route_v1alpha2, tcp_route_v1, tcp_route_v1alpha2,
  tls_route_v1, tls_route_v1alpha3, tls_route_v1alpha2, udp_route_v1, udp_route_v1alpha2,
}

pub record Rule : Type 0 where
  pub index : ℕ
  pub name : Option String
  pub backend_refs : List ApiBackendRef
  pub filters : List String

abbrev describe_unnamed : ℕ → Text
describe_unnamed index = lit "rule " ∷ dec index ∷ []

-- Rule.Describe
abbrev pub describe : Rule → Text
describe r = elim r.name [
  | none ↦ describe_unnamed r.index
  | some name ↦ if name == "" then describe_unnamed r.index else lit "rule " ∷ quoted name ∷ []
]

-- `for i, r := range rules` that appends `entry i r`, from index `i` on.
abbrev pub indexed : {R : Type 0} → (ℕ → R → Rule) → ℕ → List R → List Rule
indexed entry i [] = []
indexed entry i (r ∷ rs) = entry i r ∷ indexed entry (suc i) rs

abbrev http_rule : ℕ → HttpRouteRule → Rule
http_rule i r = record {
  index = i;
  name = r.name;
  backend_refs = map (λ br. br.backend_ref) r.backend_refs;
  filters = map (λ f. f.type) r.filters;
}

abbrev grpc_rule : ℕ → GrpcRouteRule → Rule
grpc_rule i r = record {
  index = i;
  name = r.name;
  backend_refs = map (λ br. br.backend_ref) r.backend_refs;
  filters = map (λ f. f.type) r.filters;
}

abbrev stream_rule : ℕ → StreamRouteRule → Rule
stream_rule i r = record { index = i; name = r.name; backend_refs = r.backend_refs; filters = [] }

abbrev pub http_rules : List HttpRouteRule → List Rule
http_rules rules = indexed http_rule 0 rules

abbrev pub grpc_rules : List GrpcRouteRule → List Rule
grpc_rules rules = indexed grpc_rule 0 rules

-- tcpRules, alpha2TCPRules, tlsRules, alpha2TLSRules, udpRules and alpha2UDPRules: one loop over six
-- Go types with the same fields.
abbrev pub stream_rules : List StreamRouteRule → List Rule
stream_rules rules = indexed stream_rule 0 rules

unfoldable pub rules_of : K8sObject → List Rule
rules_of (http_route_v1 route) = http_rules route.rules
rules_of (http_route_v1beta1 route) = http_rules route.rules
rules_of (grpc_route_v1 route) = grpc_rules route.rules
rules_of (grpc_route_v1alpha2 route) = grpc_rules route.rules
rules_of (tcp_route_v1 route) = stream_rules route.rules
rules_of (tcp_route_v1alpha2 route) = stream_rules route.rules
rules_of (tls_route_v1 route) = stream_rules route.rules
rules_of (tls_route_v1alpha3 route) = stream_rules route.rules
rules_of (tls_route_v1alpha2 route) = stream_rules route.rules
rules_of (udp_route_v1 route) = stream_rules route.rules
rules_of (udp_route_v1alpha2 route) = stream_rules route.rules
rules_of _ = []

abbrev pub rule_names : {R : Type 0} → List R → (R → Option String) → List (Option String)
rule_names rules name_of = map name_of rules

unfoldable pub rule_names_of : K8sObject → List (Option String)
rule_names_of (http_route_v1 route) = rule_names route.rules (λ r. r.name)
rule_names_of (http_route_v1beta1 route) = rule_names route.rules (λ r. r.name)
rule_names_of (grpc_route_v1 route) = rule_names route.rules (λ r. r.name)
rule_names_of (grpc_route_v1alpha2 route) = rule_names route.rules (λ r. r.name)
rule_names_of (tcp_route_v1 route) = rule_names route.rules (λ r. r.name)
rule_names_of (tcp_route_v1alpha2 route) = rule_names route.rules (λ r. r.name)
rule_names_of (tls_route_v1 route) = rule_names route.rules (λ r. r.name)
rule_names_of (tls_route_v1alpha3 route) = rule_names route.rules (λ r. r.name)
rule_names_of (tls_route_v1alpha2 route) = rule_names route.rules (λ r. r.name)
rule_names_of (udp_route_v1 route) = rule_names route.rules (λ r. r.name)
rule_names_of (udp_route_v1alpha2 route) = rule_names route.rules (λ r. r.name)
rule_names_of _ = []
