-- ===== src/Checks/DanglingGatewayClass.antt =====
-- pkg/templates/danglinggatewayclass
pub mod Missing
use gwlint.Prelude.{
  String, Option, none, some, List, [], ◌∷◌, Bool, ◌==◌, is_empty, contains, if◌then◌else◌,
  Diagnostic, lit, quoted,
}
use gwlint.Prelude.Tests.{string_eq}
use gwlint.Api.{LintContext, Object, Gateway}
use gwlint.GatewayApi.Parent.{as_gateway, gateway_classes}

abbrev pub message : Gateway → Diagnostic
message gateway = record {
  message =
      lit "Gateway "
      ∷ quoted gateway.meta.name
      ∷ lit " names GatewayClass "
      ∷ quoted gateway.gateway_class_name
      ∷ lit
          ", which is not present; no controller will claim the Gateway and none of its listeners will be programmed"
      ∷ [];
}

unfoldable pub judge : List String → Gateway → List Diagnostic
judge classes gateway =
    if gateway.gateway_class_name == ""
    then []
    else if is_empty classes
    then []
    else if contains classes gateway.gateway_class_name
    then []
    else message gateway ∷ []

unfoldable pub check_func : LintContext → Object → List Diagnostic
check_func ctx object = elim (as_gateway object.k8s_object) [
  | none ↦ []
  | some gateway ↦ judge (gateway_classes ctx) gateway
]
