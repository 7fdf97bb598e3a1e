-- ===== src/Checks/DanglingGatewayClass/Missing.antt =====
-- Which Gateways dangling-gateway-class reports.
use mathlib.Core.Bool.{false≢true}
use mathlib.Core.Path.{subst}
use gwlint.Prelude.{
  String, some, List, [], ◌∷◌, Bool, false, ◌==◌, ◌≡◌, ◌≢◌, ◌↔◌, ◌⊎◌, inl, inr, iff_trans,
  filter_map_iff, refl, sym, ◌∙◌, arith, is_empty, Any, any_iff, Any-mono, contains, differs_iff,
  if◌then◌else◌,
}
use gwlint.Prelude.Tests.{string_eq, eq-false_of_ne}
use gwlint.Api.{
  LintContext, Object, K8sObject, Gateway, gateway_v1, gateway_v1beta1, gateway_class_v1,
  gateway_class_v1beta1,
}
use gwlint.GatewayApi.Parent.{as_gateway, class_name, gateway_classes}
use gwlint.Checks.DanglingGatewayClass.{judge, check_func, message}

three_guards :
    {D : Type 0} (a b c : Bool) (x : D)
    → (is_empty (if a then [] else if b then [] else if c then [] else x ∷ []) ≡ false)
      ↔ ((a ≡ false) × (b ≡ false) × (c ≡ false))
three_guards a b c x = ground arith

-- The set has a GatewayClass, and none that the Gateway names.
abbrev Unclaimed : List String → Gateway → Type 0
Unclaimed classes gateway =
    (gateway.gateway_class_name ≢ "")
    × (classes ≢ [])
    × ¬ Any (λ name. name ≡ gateway.gateway_class_name) classes

nonempty_iff : (xs : List String) → (is_empty xs ≡ false) ↔ (xs ≢ [])
nonempty_iff [] = (λ h. cc, λ h. absurd (h refl))
nonempty_iff (x ∷ xs) = (λ h e. cc, λ h. refl)

judge_iff :
    (classes : List String) (gateway : Gateway)
    → (is_empty (judge classes gateway) ≡ false) ↔ Unclaimed classes gateway
unfolding judge
judge_iff classes gateway =
    let name = gateway.gateway_class_name in
    let named = differs_iff gateway.gateway_class_name "" in
    let classed = nonempty_iff classes in
    let (found, kept) = any_iff (λ x. x == gateway.gateway_class_name) classes in
    let guards =
      three_guards (gateway.gateway_class_name == "") (is_empty classes)
        (contains classes gateway.gateway_class_name) (message gateway) in
    (
      λ h.
          let (a, b, c) = guards.0 h in
          (
            named.0 a,
            classed.0 b,
            λ k.
                false≢true (sym c ∙ kept (Any-mono (λ x e. (string_eq.beq_iff x _).1 e) classes k)),
          ),
      λ (a, b, c). guards.1 (
        named.1 a,
        classed.1 b,
        eq-false_of_ne (λ k. c (Any-mono (λ x e. (string_eq.beq_iff x _).0 e) classes (found k))),
      ),
    )

-- The object is a GatewayClass, of either version, with such a name.
abbrev pub IsGatewayClass : (String → Type 0) → K8sObject → Type 0
IsGatewayClass P (gateway_class_v1 m) = P m.name
IsGatewayClass P (gateway_class_v1beta1 m) = P m.name
IsGatewayClass P _ = ⊥

abbrev pub SomeGatewayClass : LintContext → (String → Type 0) → Type 0
SomeGatewayClass ctx P = Any (λ obj. IsGatewayClass P obj.k8s_object) ctx.objects

class_given :
    (P : String → Type 0) (obj : K8sObject)
    → ((name : String) × (class_name obj ≡ some name) × P name) ↔ IsGatewayClass P obj
class_given P (gateway_class_v1 m) = (λ (n, e, k). subst P (cc) k, λ h. (m.name, refl, h))
class_given P (gateway_class_v1beta1 m) = (λ (n, e, k). subst P (cc) k, λ h. (m.name, refl, h))
class_given P _ = (λ (n, e, k). cc, λ h. absurd h)

classes_iff :
    (ctx : LintContext) (P : String → Type 0) → Any P (gateway_classes ctx) ↔ SomeGatewayClass ctx P
unfolding gateway_classes
classes_iff ctx P =
    let (found, kept) =
      filter_map_iff P (λ (obj : Object). class_name obj.k8s_object) ctx.objects in
    (
      λ h. Any-mono (λ obj. (class_given P obj.k8s_object).0) ctx.objects (found h),
      λ h. kept (Any-mono (λ obj. (class_given P obj.k8s_object).1) ctx.objects h),
    )

some_name_iff : (names : List String) → (names ≢ []) ↔ Any (λ _. Unit) names
some_name_iff [] = (λ h. absurd (h refl), λ h. absurd h)
some_name_iff (x ∷ xs) = (λ h. inl tt, λ h e. cc)

-- Of a Gateway of either version, dangling-gateway-class reports something exactly when the Gateway
-- names a GatewayClass, and the manifest set has some GatewayClass, of either version, but none of
-- that name.
pub gateway_class_iff :
    (ctx : LintContext) (object : Object) (gateway : Gateway)
    → (object.k8s_object ≡ gateway_v1 gateway) ⊎ (object.k8s_object ≡ gateway_v1beta1 gateway)
    → (is_empty (check_func ctx object) ≡ false) ↔ (
        (gateway.gateway_class_name ≢ "")
        × SomeGatewayClass ctx (λ _. Unit)
        × ¬ SomeGatewayClass ctx (λ name. name ≡ gateway.gateway_class_name))
unfolding check_func as_gateway
gateway_class_iff ctx object gateway version =
    let (reads, reports) = checked version in
    let some_class =
      iff_trans (some_name_iff (gateway_classes ctx)) (classes_iff ctx (λ _. Unit)) in
    let this = classes_iff ctx (λ name. name ≡ gateway.gateway_class_name) in
    (
      λ h. let (a, b, c) = reads h in (a, some_class.0 b, λ k. c (this.1 k)),
      λ (a, b, c). reports (a, some_class.1 b, λ k. c (this.0 k)),
    )
  where
    checked :
        (object.k8s_object ≡ gateway_v1 gateway) ⊎ (object.k8s_object ≡ gateway_v1beta1 gateway)
        → (is_empty (check_func ctx object) ≡ false) ↔ Unclaimed (gateway_classes ctx) gateway
    checked (inl e) = rw (check_func, e) (judge_iff (gateway_classes ctx) gateway)
    checked (inr e) = rw (check_func, e) (judge_iff (gateway_classes ctx) gateway)
