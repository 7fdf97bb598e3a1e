-- ===== src/Checks/DanglingListenerSetParent.antt =====
-- pkg/templates/danglinglistenersetparent
pub mod Missing
use gwlint.Prelude.{
  String, Option, none, some, List, [], ◌∷◌, Bool, true, false, not, ◌==◌, any, filter_map,
  contains, if◌then◌else◌, Diagnostic, lit, quoted,
}
use gwlint.Prelude.Tests.{string_eq}
use gwlint.Api.{LintContext, Object, K8sObject, ListenerSet, listener_set_v1}
use gwlint.ObjectKinds
use gwlint.GatewayApi.Parent.{ObjectRef, ref_eq, ref_to, as_gateway, listener_set_parent}

-- The body of the loop of gateways.
abbrev pub gateway_of : K8sObject → Option ObjectRef
gateway_of obj = elim (as_gateway obj) [
  | none ↦ none
  | some gateway ↦ some (ref_to ObjectKinds.gateway obj)
]

unfoldable pub gateways : LintContext → List ObjectRef
gateways ctx = filter_map (λ obj. gateway_of obj.k8s_object) ctx.objects

unfoldable pub describes_namespace : List ObjectRef → String → Bool
describes_namespace known namespace = any (λ ref. ref.namespace == namespace) known

-- The field is set, to another text.
abbrev pub set_to_other : Option String → String → Bool
set_to_other none s = false
set_to_other (some t) s = not (t == s)

abbrev pub message : ListenerSet → ObjectRef → Diagnostic
message listener_set parent = record {
  message =
      lit "ListenerSet "
      ∷ quoted listener_set.meta.name
      ∷ lit " attaches to Gateway "
      ∷ quoted parent.name
      ∷ lit " in namespace "
      ∷ quoted parent.namespace
      ∷ lit
          ", which is not present; its listeners will never be merged into a Gateway and will never be bound"
      ∷ [];
}

unfoldable pub judge : List ObjectRef → ListenerSet → List Diagnostic
judge known listener_set =
    if set_to_other listener_set.parent_ref.group ObjectKinds.group_name
    then []
    else if set_to_other listener_set.parent_ref.kind ObjectKinds.gateway
    then []
    else if listener_set.parent_ref.name == ""
    then []
    else if not (describes_namespace known (listener_set_parent listener_set).namespace)
    then []
    else if contains known (listener_set_parent listener_set)
    then []
    else message listener_set (listener_set_parent listener_set) ∷ []

abbrev pub judge_object : LintContext → K8sObject → List Diagnostic
judge_object ctx (listener_set_v1 listener_set) = judge (gateways ctx) listener_set
judge_object ctx _ = []

unfoldable pub check_func : LintContext → Object → List Diagnostic
check_func ctx object = judge_object ctx object.k8s_object
