-- ===== src/Tests/Summary.antt =====
-- The summary, and the coverage of a policy, at the samples.
use gwlint.Prelude.{
  ◌+◌, ◌≤◌, String, Option, some, List, [], ◌∷◌, Bool, ◌≡◌, map, flat_map, count_of, ◌==◌,
}
use gwlint.Prelude.Tests.{string_eq}
use gwlint.Api.{K8sObject, LabelSelectorRequirement, http_route_v1, gateway_v1}
use gwlint.GatewayApi.PolicyCoverage.{backend_traffic_policy_coverage}
use gwlint.Checks.FqdnBackendColdStart.Coverage.{policy_coverage}
use gwlint.Checks.FqdnBackendColdStart.Coverage.Complete.{covered_of, coverage_agrees}
use gwlint.Lint.Scanned.{Gvk, Check, summarize}
use gwlint.Lint.Scanned.Totals.{total, matched, summarize_bounds, summarize-count}
use gwlint.Tests.Sample.{context, retries}

abbrev gvk_of : K8sObject → Gvk
gvk_of (http_route_v1 o) = record {
  group = "gateway.networking.k8s.io";
  version = "v1";
  kind = "HTTPRoute";
}
gvk_of (gateway_v1 o) = record {
  group = "gateway.networking.k8s.io";
  version = "v1";
  kind = "Gateway";
}
gvk_of o = record { group = ""; version = "v1"; kind = "Service" }

abbrev checks : List Check
checks = record { object_kinds = "HTTPRoute" ∷ []; matches = λ gvk. gvk.kind == "HTTPRoute" } ∷ []

summarize_bounds_example :
    let s = summarize gvk_of checks (context ∷ []) in
    (s.checked ≤ s.objects)
    × (total s.checked_by_kind ≡ s.checked)
    × (s.files ≤ s.objects + s.unparsed)
summarize_bounds_example = summarize_bounds gvk_of checks (context ∷ [])

summarize-count_example :
    count_of "HTTPRoute" (summarize gvk_of checks (context ∷ [])).checked_by_kind
    ≡ matched gvk_of checks "HTTPRoute" (flat_map (λ ctx. ctx.objects) (context ∷ []))
summarize-count_example = summarize-count gvk_of checks (context ∷ []) "HTTPRoute"

-- A selector that takes every label set, and refuses no selector.
abbrev every_label :
    List (String × String) → List LabelSelectorRequirement → Option (List (String × String) → Bool)
every_label labels requirements = some (λ route_labels. Bool.true)

coverage_agrees_example :
    map covered_of (policy_coverage every_label context retries)
    ≡ backend_traffic_policy_coverage every_label context retries
coverage_agrees_example = coverage_agrees every_label context retries
