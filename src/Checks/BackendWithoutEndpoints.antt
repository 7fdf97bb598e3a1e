-- ===== src/Checks/BackendWithoutEndpoints.antt =====
-- pkg/templates/backendwithoutendpoints
use gwlint.Prelude.{
  String, List, [], ◌∷◌, not, ◌==◌, or_else, is_empty, if◌then◌else◌, Diagnostic, lit, quoted,
}
use gwlint.Prelude.Tests.{string_eq}
use gwlint.Api.{LintContext, Object, K8sObject, Backend, backend}
use gwlint.ObjectKinds

unfoldable pub backend_type : Backend → String
backend_type b = or_else b.type ObjectKinds.type_endpoints

abbrev pub message : Backend → Diagnostic
message b = record {
  message =
      lit "Backend "
      ∷ quoted b.meta.name
      ∷ lit " is of type "
      ∷ quoted ObjectKinds.type_endpoints
      ∷ lit
          " but declares no endpoints; it programs a cluster with no members, so every backendRef resolving to it fails at the gateway"
      ∷ [];
}

unfoldable pub judge : Backend → List Diagnostic
judge b =
    if backend_type b == ObjectKinds.type_dynamic_resolver
    then []
    else if not (is_empty b.endpoints)
    then []
    else message b ∷ []

abbrev pub judge_object : K8sObject → List Diagnostic
judge_object (backend b) = judge b
judge_object _ = []

unfoldable pub check_func : LintContext → Object → List Diagnostic
check_func ctx object = judge_object object.k8s_object
