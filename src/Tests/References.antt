-- ===== src/Tests/References.antt =====
-- References of routes to backends, and the rules that hold them, at the sample.
use gwlint.Prelude.{
  String, Option, none, some, List, [], ◌∷◌, true, false, ◌≡◌, ◌≢◌, ◌↔◌, ◌≤◌, is_empty, Any,
  contains, flat_map,
}
use gwlint.Prelude.Tests.{string_eq}
use gwlint.GatewayApi.Parent.{ObjectRef, ref_eq}
use gwlint.GatewayApi.Rules.{rules_of}
use gwlint.Lint.Merge.{merge_contexts}
use gwlint.Lint.Merge.Whole.{merge_contexts-flat_map}
use gwlint.Checks.DanglingBackendRef
use gwlint.Checks.DanglingBackendRef.Missing.{
  RoutesTo, IsPresent, IsDescribed, dangling_backend_iff,
}
use gwlint.Checks.MissingReferenceGrant
use gwlint.Checks.MissingReferenceGrant.Permission.{Denied, missing_grant_iff}
use gwlint.Checks.AllWeightsZero
use gwlint.Checks.AllWeightsZero.Unserved.{SendsNowhere, all_weights_zero_iff}
use gwlint.Checks.DuplicateRuleName.{repeated, count_names}
use gwlint.Checks.DuplicateRuleName.Repeated.{occurrences, repeated_iff}
use gwlint.Tests.Sample.{context, shop_object, shop_route, as_route-shop}

abbrev missing_service : ObjectRef
missing_service = record { kind = "Service"; namespace = "shop"; name = "missing" }

dangling_backend_iff_example :
    Any
      (λ d. d ≡ DanglingBackendRef.message shop_route missing_service)
      (DanglingBackendRef.check_func context shop_object)
    ↔ (RoutesTo shop_route missing_service
        × ((¬ IsPresent context missing_service) × IsDescribed context missing_service))
dangling_backend_iff_example =
    dangling_backend_iff context shop_object shop_route missing_service as_route-shop

missing_grant_iff_example :
    (is_empty (MissingReferenceGrant.check_func context shop_object) ≡ false)
    ↔ ((shop_route.namespace ≢ "") × Any (Denied context shop_route) shop_route.backend_refs)
missing_grant_iff_example = missing_grant_iff context shop_object shop_route as_route-shop

all_weights_zero_iff_example :
    (is_empty (AllWeightsZero.check_func context shop_object) ≡ false)
    ↔ Any SendsNowhere (rules_of shop_object.k8s_object)
all_weights_zero_iff_example = all_weights_zero_iff context shop_object shop_route as_route-shop

abbrev name_a : String
name_a = "a"

abbrev three_names : List (Option String)
three_names = some name_a ∷ none ∷ some name_a ∷ []

repeated_iff_example :
    (contains (repeated (count_names three_names []) [] three_names) name_a ≡ true)
    ↔ ((name_a ≢ "") × (2 ≤ occurrences name_a three_names))
repeated_iff_example = repeated_iff name_a three_names

merge_contexts_example :
    ((merge_contexts (context ∷ context ∷ [])).objects
      ≡ flat_map (λ ctx. ctx.objects) (context ∷ context ∷ []))
    × ((merge_contexts (context ∷ context ∷ [])).invalid_objects
        ≡ flat_map (λ ctx. ctx.invalid_objects) (context ∷ context ∷ []))
merge_contexts_example = merge_contexts-flat_map (context ∷ context ∷ [])
