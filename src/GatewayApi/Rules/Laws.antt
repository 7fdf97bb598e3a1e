-- ===== src/GatewayApi/Rules/Laws.antt =====
-- The three readings of a route agree: AsRoute, RulesOf and RuleNamesOf.
use mathlib.Core.List.{map-map}
use gwlint.Prelude.{
  ℕ, suc, String, Option, none, some, List, [], ◌∷◌, map, ◌≡◌, refl, sym, flat_map, ◌⊎◌, inl, inr,
}
use gwlint.Api.{
  K8sObject, HttpRouteRule, GrpcRouteRule, StreamRouteRule, http_route_v1, http_route_v1beta1,
  grpc_route_v1, grpc_route_v1alpha2, tcp_route_v1, tcp_route_v1alpha2, tls_route_v1,
  tls_route_v1alpha3, tls_route_v1alpha2, udp_route_v1, udp_route_v1alpha2,
}
use gwlint.GatewayApi.Route.{BackendRef, Route, named, as_route}
use gwlint.GatewayApi.Rules.{
  Rule, indexed, http_rule, grpc_rule, stream_rule, rules_of, rule_names_of,
}

-- The backendRefs of a list of rules, each with the name of its rule.
abbrev pub flatten_rules : List Rule → List BackendRef
flatten_rules rules = flat_map (λ rule. named rule.name rule.backend_refs) rules

module _ {R : Type 0} (entry : ℕ → R → Rule) where
  map-name-indexed :
      (name : R → Option String) (i : ℕ) (rs : List R)
      → ((j : ℕ) (r : R) → (entry j r).name ≡ name r)
      → map (λ rule. rule.name) (indexed entry i rs) ≡ map name rs
  map-name-indexed name i [] h = refl
  map-name-indexed name i (r ∷ rs) h = cc (h i r, map-name-indexed name (suc i) rs h)

  flatten_rules-indexed :
      (refs : R → List BackendRef) (i : ℕ) (rs : List R)
      → ((j : ℕ) (r : R) → named (entry j r).name (entry j r).backend_refs ≡ refs r)
      → flatten_rules (indexed entry i rs) ≡ flat_map refs rs
  flatten_rules-indexed refs i [] h = refl
  flatten_rules-indexed refs i (r ∷ rs) h = cc (h i r, flatten_rules-indexed refs (suc i) rs h)

http_names :
    (rs : List HttpRouteRule)
    → map (λ r. r.name) rs ≡ map (λ rule. rule.name) (indexed http_rule 0 rs)
http_names rs = sym (map-name-indexed http_rule (λ r. r.name) 0 rs (λ j r. refl))

grpc_names :
    (rs : List GrpcRouteRule)
    → map (λ r. r.name) rs ≡ map (λ rule. rule.name) (indexed grpc_rule 0 rs)
grpc_names rs = sym (map-name-indexed grpc_rule (λ r. r.name) 0 rs (λ j r. refl))

stream_names :
    (rs : List StreamRouteRule)
    → map (λ r. r.name) rs ≡ map (λ rule. rule.name) (indexed stream_rule 0 rs)
stream_names rs = sym (map-name-indexed stream_rule (λ r. r.name) 0 rs (λ j r. refl))

http_refs :
    (rs : List HttpRouteRule)
    → flat_map
        (λ rule. map (λ br. record { rule = rule.name; ref = br.backend_ref }) rule.backend_refs)
        rs
      ≡ flatten_rules (indexed http_rule 0 rs)
http_refs rs = sym (flatten_rules-indexed http_rule _ 0 rs (λ j r. map-map _ _ r.backend_refs))

grpc_refs :
    (rs : List GrpcRouteRule)
    → flat_map
        (λ rule. map (λ br. record { rule = rule.name; ref = br.backend_ref }) rule.backend_refs)
        rs
      ≡ flatten_rules (indexed grpc_rule 0 rs)
grpc_refs rs = sym (flatten_rules-indexed grpc_rule _ 0 rs (λ j r. map-map _ _ r.backend_refs))

stream_refs :
    (rs : List StreamRouteRule)
    → flat_map (λ rule. named rule.name rule.backend_refs) rs
      ≡ flatten_rules (indexed stream_rule 0 rs)
stream_refs rs = sym (flatten_rules-indexed stream_rule _ 0 rs (λ j r. refl))

-- The names that RuleNamesOf lists are the names of the rules that RulesOf lists, in order, for an
-- object of any type.
pub rule_names_of-rules_of :
    (obj : K8sObject) → rule_names_of obj ≡ map (λ rule. rule.name) (rules_of obj)
unfolding rule_names_of rules_of
rule_names_of-rules_of (http_route_v1 route) = http_names route.rules
rule_names_of-rules_of (http_route_v1beta1 route) = http_names route.rules
rule_names_of-rules_of (grpc_route_v1 route) = grpc_names route.rules
rule_names_of-rules_of (grpc_route_v1alpha2 route) = grpc_names route.rules
rule_names_of-rules_of (tcp_route_v1 route) = stream_names route.rules
rule_names_of-rules_of (tcp_route_v1alpha2 route) = stream_names route.rules
rule_names_of-rules_of (tls_route_v1 route) = stream_names route.rules
rule_names_of-rules_of (tls_route_v1alpha3 route) = stream_names route.rules
rule_names_of-rules_of (tls_route_v1alpha2 route) = stream_names route.rules
rule_names_of-rules_of (udp_route_v1 route) = stream_names route.rules
rule_names_of-rules_of (udp_route_v1alpha2 route) = stream_names route.rules
rule_names_of-rules_of _ = refl

-- AsRoute and RulesOf cover the same types: an object that is a route has the backendRefs of its
-- rules, in order, each with the name of its rule; an object that is none has no rules.
pub as_route-rules_of :
    (obj : K8sObject)
    → ((route : Route) × (as_route obj ≡ some route)
        × (route.backend_refs ≡ flatten_rules (rules_of obj)))
      ⊎ (as_route obj ≡ none) × (rules_of obj ≡ [])
unfolding as_route rules_of
as_route-rules_of (http_route_v1 route) = inl (_, refl, http_refs route.rules)
as_route-rules_of (http_route_v1beta1 route) = inl (_, refl, http_refs route.rules)
as_route-rules_of (grpc_route_v1 route) = inl (_, refl, grpc_refs route.rules)
as_route-rules_of (grpc_route_v1alpha2 route) = inl (_, refl, grpc_refs route.rules)
as_route-rules_of (tcp_route_v1 route) = inl (_, refl, stream_refs route.rules)
as_route-rules_of (tcp_route_v1alpha2 route) = inl (_, refl, stream_refs route.rules)
as_route-rules_of (tls_route_v1 route) = inl (_, refl, stream_refs route.rules)
as_route-rules_of (tls_route_v1alpha3 route) = inl (_, refl, stream_refs route.rules)
as_route-rules_of (tls_route_v1alpha2 route) = inl (_, refl, stream_refs route.rules)
as_route-rules_of (udp_route_v1 route) = inl (_, refl, stream_refs route.rules)
as_route-rules_of (udp_route_v1alpha2 route) = inl (_, refl, stream_refs route.rules)
as_route-rules_of _ = inr (refl, refl)
