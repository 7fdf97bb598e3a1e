-- ===== src/Tests/Policies.antt =====
-- Policies over one slot, and the routes that they cover, at the sample.
use gwlint.Prelude.{none, some, ◌≡◌, ◌≢◌, ◌||◌, inl, inr, refl, any, Diagnostic, arith}
use gwlint.ObjectKinds
use gwlint.Api.{BackendTrafficPolicy}
use gwlint.GatewayApi.PolicyCoverage.{
  PolicyRouteKey, routes_attached_to_gateway, routes_attached_to_parent, listener_sets_belonging_to,
}
use gwlint.GatewayApi.PolicyCoverage.Attached.{
  lists, attached_to_set, lists-routes_attached_to_gateway,
}
use gwlint.Checks.ConflictingPolicies.{Target, judge}
use gwlint.Checks.ConflictingPolicies.Reporter.{Claims, IsListed, one_reporter}
use gwlint.Checks.ConflictingPolicies.Least.{some_reporter}
use gwlint.Tests.Sample.{context, retries, timeouts}

abbrev shop_slot : Target
shop_slot = record {
  group = ObjectKinds.group_name;
  kind = "HTTPRoute";
  namespace = "shop";
  name = "shop";
  section = "";
}

abbrev shop_key : PolicyRouteKey
shop_key = record { kind = "HTTPRoute"; namespace = "shop"; name = "shop" }

policies_differ : retries.address ≢ timeouts.address
policies_differ e = ground arith

names_differ : retries.meta.name ≢ timeouts.meta.name
names_differ e = cc

one_reporter_example : ¬ (
    ((d : Diagnostic) × (judge context retries shop_slot ≡ some d))
    × ((d : Diagnostic) × (judge context timeouts shop_slot ≡ some d)))
one_reporter_example =
    one_reporter context shop_slot retries timeouts (inr (inr (inr (inr (inl refl)))))
      (inr (inr (inr (inr (inr (inl refl)))))) (inl refl) (inl refl) policies_differ names_differ

some_reporter_example :
    (q : BackendTrafficPolicy) × IsListed context q
    × Claims q shop_slot
    × ((d : Diagnostic) × (judge context q shop_slot ≡ some d))
some_reporter_example =
    some_reporter context shop_slot timeouts (inr (inr (inr (inr (inr (inl refl)))))) (inl refl)
      (inr (inr (inr (inr (inl (policies_differ, inl refl, tt))))))

routes_attached_to_gateway_example :
    lists (routes_attached_to_gateway context "infra" "edge" none) shop_key ≡ (
      lists (routes_attached_to_parent context ObjectKinds.gateway "infra" "edge" none) shop_key
      || any
          (λ ls. lists (attached_to_set context ls) shop_key)
          (listener_sets_belonging_to context "infra" "edge"))
routes_attached_to_gateway_example =
    lists-routes_attached_to_gateway shop_key context "infra" "edge" none
