-- ===== src/Checks/DanglingListenerSetParent/Missing.antt =====
-- Which ListenerSets dangling-listener-set-parent reports.
use mathlib.Core.Bool.{false≢true}
use mathlib.Core.Path.{subst}
use gwlint.Prelude.{
  filter_map_iff, iff_trans, String, Option, none, some, or_else, List, [], ◌∷◌, Bool, true, false,
  not, ◌==◌, ◌≡◌, ◌≢◌, ◌↔◌, ◌⊎◌, inl, inr, refl, ap, sym, ◌∙◌, arith, is_empty, Any, any_iff,
  Any-mono, contains, differs_iff, if◌then◌else◌, Bool-cases,
}
use gwlint.Prelude.Tests.{string_eq, eq-false_of_ne}
use gwlint.ObjectKinds
use gwlint.Api.{
  ObjectMeta, LintContext, Object, K8sObject, ListenerSet, gateway_v1, gateway_v1beta1,
  listener_set_v1,
}
use gwlint.GatewayApi.Parent.{ObjectRef, ref_eq, as_gateway, listener_set_parent}
use gwlint.Checks.DanglingListenerSetParent.{
  gateway_of, gateways, describes_namespace, set_to_other, judge, check_func, message,
}

-- The field is left out, or has the default.
abbrev pub Defaults : Option String → String → Type 0
Defaults o s = (o ≡ none) ⊎ (o ≡ some s)

unset_or_iff : (o : Option String) (s : String) → (set_to_other o s ≡ false) ↔ Defaults o s
unset_or_iff none s = (λ _. inl refl, λ _. refl)
unset_or_iff (some t) s = elim (Bool-cases (t == s)) [
  | inl e ↦ rw e (λ _. inr (ap some ((string_eq.beq_iff t s).0 e)), λ _. refl)
  | inr e ↦ rw e (
    λ h. cc,
    elim [ inl k ↦ cc | inr k ↦ (let same : t ≡ s = (cc) in absurd ((differs_iff t s).0 e same)) ],
  )
]

-- The object is a Gateway, of either version, with such metadata.
abbrev pub IsGateway : (ObjectMeta → Type 0) → K8sObject → Type 0
IsGateway P (gateway_v1 g) = P g.meta
IsGateway P (gateway_v1beta1 g) = P g.meta
IsGateway P _ = ⊥

abbrev pub SomeGateway : LintContext → (ObjectMeta → Type 0) → Type 0
SomeGateway ctx P = Any (λ obj. IsGateway P obj.k8s_object) ctx.objects

-- The namespace that the parentRef refers to, which is the ListenerSet's own where it is left out.
abbrev pub parent_namespace : ListenerSet → String
parent_namespace ls = or_else ls.parent_ref.namespace ls.meta.namespace

-- The parentRef is to a Gateway by name, the set has a Gateway in that namespace, and not this one.
abbrev pub Dangles : LintContext → ListenerSet → Type 0
Dangles ctx ls =
    (Defaults ls.parent_ref.group ObjectKinds.group_name)
    × (Defaults ls.parent_ref.kind ObjectKinds.gateway)
    × (ls.parent_ref.name ≢ "")
    × SomeGateway ctx (λ meta. meta.namespace ≡ parent_namespace ls)
    × ¬ SomeGateway ctx
        (λ meta. (meta.namespace ≡ parent_namespace ls) × (meta.name ≡ ls.parent_ref.name))

one_given :
    (P : ObjectRef → Type 0) (s : ObjectRef) → ((r : ObjectRef) × (some s ≡ some r) × P r) ↔ P s
one_given P s = (λ (r, e, k). (let same : s ≡ r = (cc) in subst P (sym same) k), λ h. (s, refl, h))

gateway_given :
    (P : ObjectRef → Type 0) (obj : K8sObject)
    → ((r : ObjectRef) × (gateway_of obj ≡ some r) × P r)
      ↔ IsGateway
          (λ meta.
            P (record { kind = ObjectKinds.gateway; namespace = meta.namespace; name = meta.name }))
          obj
unfolding as_gateway
gateway_given P (gateway_v1 g) = one_given P _
gateway_given P (gateway_v1beta1 g) = one_given P _
gateway_given P _ = (λ (r, e, k). cc, λ h. absurd h)

five_guards :
    {D : Type 0} (a b c d e : Bool) (x : D)
    → (is_empty (
          if a
          then []
          else if b
          then []
          else if c
          then []
          else if not d
          then []
          else if e
          then []
          else x ∷ [])
        ≡ false)
      ↔ ((a ≡ false) × (b ≡ false) × (c ≡ false) × (d ≡ true) × (e ≡ false))
five_guards a b c d e x = ground arith

known_iff :
    (known : List ObjectRef) (r : ObjectRef) → (contains known r ≡ true) ↔ Any (λ x. x ≡ r) known
known_iff known r =
    let (found, kept) = any_iff (λ x. x == r) known in
    (
      λ h. Any-mono (λ x e. (ref_eq.beq_iff x r).0 e) known (found h),
      λ h. kept (Any-mono (λ x e. (ref_eq.beq_iff x r).1 e) known h),
    )

namespace_iff :
    (known : List ObjectRef) (namespace : String)
    → (describes_namespace known namespace ≡ true) ↔ Any (λ ref. ref.namespace ≡ namespace) known
unfolding describes_namespace
namespace_iff known namespace =
    let (found, kept) = any_iff (λ ref. ref.namespace == namespace) known in
    (
      λ h. Any-mono (λ x e. (string_eq.beq_iff x.namespace namespace).0 e) known (found h),
      λ h. kept (Any-mono (λ x e. (string_eq.beq_iff x.namespace namespace).1 e) known h),
    )

IsGateway-mono :
    (P Q : ObjectMeta → Type 0) (obj : K8sObject)
    → ((m : ObjectMeta) → P m → Q m)
    → IsGateway P obj
    → IsGateway Q obj
IsGateway-mono P Q (gateway_v1 g) f h = f g.meta h
IsGateway-mono P Q (gateway_v1beta1 g) f h = f g.meta h
IsGateway-mono P Q _ f h = absurd h

gateways_iff :
    (ctx : LintContext) (P : ObjectRef → Type 0) (Q : ObjectMeta → Type 0)
    → ((m : ObjectMeta)
        → P (record { kind = ObjectKinds.gateway; namespace = m.namespace; name = m.name }) ↔ Q m)
    → Any P (gateways ctx) ↔ SomeGateway ctx Q
unfolding gateways
gateways_iff ctx P Q says =
    let (found, kept) =
      filter_map_iff P (λ (obj : Object). gateway_of obj.k8s_object) ctx.objects in
    (
      λ h.
          Any-mono
            (λ obj k.
              IsGateway-mono _ Q obj.k8s_object (λ m. (says m).0)
                ((gateway_given P obj.k8s_object).0 k))
            ctx.objects (found h),
      λ h. kept (
          Any-mono
            (λ obj k.
              (gateway_given P obj.k8s_object).1
                (IsGateway-mono Q _ obj.k8s_object (λ m. (says m).1) k))
            ctx.objects h),
    )

parent_iff :
    (ls : ListenerSet) (m : ObjectMeta)
    → (record { kind = ObjectKinds.gateway; namespace = m.namespace; name = m.name }
        ≡ listener_set_parent ls)
      ↔ ((m.namespace ≡ parent_namespace ls) × (m.name ≡ ls.parent_ref.name))
unfolding listener_set_parent
parent_iff ls m =
    (λ e. (ap (λ (r : ObjectRef). r.namespace) e, ap (λ (r : ObjectRef). r.name) e), λ (n, k). (cc))

judge_iff :
    (ctx : LintContext) (ls : ListenerSet)
    → (is_empty (judge (gateways ctx) ls) ≡ false) ↔ Dangles ctx ls
unfolding judge listener_set_parent
judge_iff ctx ls =
    let group = unset_or_iff ls.parent_ref.group ObjectKinds.group_name in
    let kind = unset_or_iff ls.parent_ref.kind ObjectKinds.gateway in
    let named = differs_iff ls.parent_ref.name "" in
    let there = iff_trans (namespace_iff (gateways ctx) (parent_namespace ls)) (
      gateways_iff ctx (λ r. r.namespace ≡ parent_namespace ls)
        (λ m. m.namespace ≡ parent_namespace ls) (λ m. (λ h. h, λ h. h))) in
    let present =
      iff_trans (known_iff (gateways ctx) (listener_set_parent ls))
        (gateways_iff ctx (λ r. r ≡ listener_set_parent ls) _ (parent_iff ls)) in
    let guards =
      five_guards (set_to_other ls.parent_ref.group ObjectKinds.group_name)
        (set_to_other ls.parent_ref.kind ObjectKinds.gateway) (ls.parent_ref.name == "")
        (describes_namespace (gateways ctx) (parent_namespace ls))
        (contains (gateways ctx) (listener_set_parent ls)) (message ls (listener_set_parent ls)) in
    (
      λ h.
          let (a, b, c, d, e) = guards.0 h in
          (group.0 a, kind.0 b, named.0 c, there.0 d, λ k. false≢true (sym e ∙ present.1 k)),
      λ (a, b, c, d, e).
          guards.1
            (group.1 a, kind.1 b, named.1 c, there.1 d, eq-false_of_ne (λ k. e (present.0 k))),
    )

-- Of a ListenerSet, dangling-listener-set-parent reports something exactly when its parentRef is to a
-- Gateway, by a name, the manifest set has a Gateway of either version in the namespace that it
-- refers to, and none of them is the one that it names.
pub listener_set_parent_iff :
    (ctx : LintContext) (object : Object) (ls : ListenerSet)
    → object.k8s_object ≡ listener_set_v1 ls
    → (is_empty (check_func ctx object) ≡ false) ↔ Dangles ctx ls
unfolding check_func
listener_set_parent_iff ctx object ls e = rw (check_func, e) (judge_iff ctx ls)
