-- ===== src/Tests/Runs.antt =====
-- Runs of the checks on the sample.
use gwlint.Prelude.{[], ◌∷◌, ◌≡◌, refl}
use gwlint.ObjectKinds
use gwlint.Api.{backend_traffic_policy}
use gwlint.GatewayApi.Route.{as_route}
use gwlint.GatewayApi.Parent.{
  parents_of, gateways_and_listener_sets, backend_targets, resolvable_backend_kind,
}
use gwlint.Checks.DanglingParentRef
use gwlint.Checks.DanglingBackendRef
use gwlint.Checks.MissingReferenceGrant
use gwlint.Checks.ConflictingPolicies
use gwlint.Tests.Sample.{context, shop_object, shop_route, gone, retries, timeouts, object_of}

dangling_parent_run :
    DanglingParentRef.check_func context shop_object
    ≡ DanglingParentRef.message shop_route gone ∷ []
unfolding DanglingParentRef.check_func DanglingParentRef.judge as_route parents_of
    gateways_and_listener_sets
dangling_parent_run = refl

dangling_backend_run :
    DanglingBackendRef.check_func context shop_object
    ≡ DanglingBackendRef.message shop_route
        (record { kind = "Service"; namespace = "shop"; name = "missing" })
      ∷ []
unfolding DanglingBackendRef.check_func DanglingBackendRef.judge DanglingBackendRef.described
    as_route backend_targets resolvable_backend_kind
dangling_backend_run = refl

abbrev shop_slot : ConflictingPolicies.Target
shop_slot = record {
  group = ObjectKinds.group_name;
  kind = "HTTPRoute";
  namespace = "shop";
  name = "shop";
  section = "";
}

-- The first of the two policies by name reports the conflict, and the second does not.
retries_run :
    ConflictingPolicies.check_func context (object_of (backend_traffic_policy retries))
    ≡ ConflictingPolicies.message ("timeouts" ∷ []) shop_slot ∷ []
unfolding ConflictingPolicies.check_func ConflictingPolicies.judge
    ConflictingPolicies.other_policies_targeting ConflictingPolicies.targets_of
    ConflictingPolicies.is_first_by_name
retries_run = refl

timeouts_run :
    ConflictingPolicies.check_func context (object_of (backend_traffic_policy timeouts)) ≡ []
unfolding ConflictingPolicies.check_func ConflictingPolicies.judge
    ConflictingPolicies.other_policies_targeting ConflictingPolicies.targets_of
    ConflictingPolicies.is_first_by_name
timeouts_run = refl

-- The grant of the namespace data is for another namespace, so that the reference is denied.
missing_grant_run :
    MissingReferenceGrant.check_func context shop_object
    ≡ MissingReferenceGrant.message shop_route
        (record {
          from_kind = "HTTPRoute";
          from_namespace = "shop";
          to_group = "";
          to_kind = "Service";
          to_name = "db";
        })
        "data"
      ∷ []
unfolding MissingReferenceGrant.check_func MissingReferenceGrant.judge
    MissingReferenceGrant.grants_by_namespace MissingReferenceGrant.permits as_route
missing_grant_run = refl
