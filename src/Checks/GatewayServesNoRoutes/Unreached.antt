-- ===== src/Checks/GatewayServesNoRoutes/Unreached.antt =====
-- Which Gateways gateway-serves-no-routes reports.
use mathlib.Core.Bool.{false≢true}
use gwlint.Prelude.{
  some, List, ◌∷◌, or_else, iff_trans, filter_map_iff, is_empty-eq-false, ◌⊎◌, ap, true, false,
  ◌==◌, ◌≡◌, ◌↔◌, inl, inr, refl, sym, ◌∙◌, is_empty, any, Any, any_iff, Any-mono, contains,
  Bool-cases,
}
use gwlint.Prelude.Tests.{string_eq}
use gwlint.ObjectKinds
use gwlint.Api.{LintContext, Object, Gateway, K8sObject, listener_set_v1}
use gwlint.GatewayApi.Route.{Route, as_route, routes}
use gwlint.GatewayApi.Parent.{
  Parent, ObjectRef, ref_eq, ref_of, parents_of, as_gateway, listener_set_parent,
}
use gwlint.Checks.GatewayServesNoRoutes.{
  gateway_ref, owned_by, listener_sets_of, reaches, any_reaches, judge, check_func,
}

-- The object is the ListenerSet of that name, whose own parentRef has the Gateway's name and
-- namespace; the namespace is the ListenerSet's where it is left out.
abbrev pub IsSetOf : Gateway → ObjectRef → K8sObject → Type 0
IsSetOf gateway ref (listener_set_v1 ls) =
    (ls.parent_ref.name ≡ gateway.meta.name)
    × (or_else ls.parent_ref.namespace ls.meta.namespace ≡ gateway.meta.namespace)
    × (ref.kind ≡ ObjectKinds.listener_set)
    × (ref.namespace ≡ ls.meta.namespace)
    × (ref.name ≡ ls.meta.name)
IsSetOf gateway ref _ = ⊥

-- The reference is to the Gateway, or to a ListenerSet of the manifest set that is the Gateway's.
abbrev pub IsAttachPoint : LintContext → Gateway → ObjectRef → Type 0
IsAttachPoint ctx gateway ref =
    (ref.kind ≡ ObjectKinds.gateway)
      × (ref.namespace ≡ gateway.meta.namespace)
      × (ref.name ≡ gateway.meta.name)
    ⊎ Any (λ obj. IsSetOf gateway ref obj.k8s_object) ctx.objects

-- The parentRef is in the Gateway API group and refers to one of the two.
abbrev pub Reaches : LintContext → Gateway → Parent → Type 0
Reaches ctx gateway p = (p.group ≡ ObjectKinds.group_name) × IsAttachPoint ctx gateway (ref_of p)

-- Some object of the manifest set is a route of which that holds.
abbrev pub SomeRoute : LintContext → (Route → Type 0) → Type 0
SomeRoute ctx P =
    Any (λ obj. (route : Route) × (as_route obj.k8s_object ≡ some route) × P route) ctx.objects

ref_eq_iff :
    (a b : ObjectRef)
    → (a ≡ b) ↔ ((b.kind ≡ a.kind) × (b.namespace ≡ a.namespace) × (b.name ≡ a.name))
ref_eq_iff a b = (
  λ e. (ap (λ r. r.kind) (sym e), ap (λ r. r.namespace) (sym e), ap (λ r. r.name) (sym e)),
  λ (k, n, m). (cc),
)

set_given :
    (gateway : Gateway) (ref : ObjectRef) (obj : K8sObject)
    → ((r : ObjectRef) × (owned_by (gateway_ref gateway) obj ≡ some r) × (r ≡ ref))
      ↔ IsSetOf gateway ref obj
unfolding listener_set_parent
set_given gateway ref (listener_set_v1 ls) =
    let (named, same) = ref_eq.beq_iff (listener_set_parent ls) (gateway_ref gateway) in
    let (forth, back) =
      ref_eq_iff
        (record {
          kind = ObjectKinds.listener_set;
          namespace = ls.meta.namespace;
          name = ls.meta.name;
        })
        ref in
    elim (Bool-cases (listener_set_parent ls == gateway_ref gateway)) [
      | inl e ↦
          rw (owned_by, e)
            (
              λ (r, k, q).
                  let (a, b, c) = forth (cc) in
                  (ap (λ o. o.name) (named e), ap (λ o. o.namespace) (named e), a, b, c),
              λ (_, _, a, b, c). (_, refl, back (a, b, c)),
            )
      | inr e ↦
          rw (owned_by, e)
            (λ (r, k, q). cc, λ (n, m, _, _, _). absurd (false≢true (sym e ∙ same (cc))))
    ]
set_given gateway ref _ = (λ (r, e, k). cc, λ h. absurd h)

module _ (ctx : LintContext) (gateway : Gateway) where
  attach_points : List ObjectRef
  attach_points = gateway_ref gateway ∷ listener_sets_of ctx (gateway_ref gateway)

  contains_iff :
      (refs : List ObjectRef) (r : ObjectRef) → (contains refs r ≡ true) ↔ Any (λ x. x ≡ r) refs
  contains_iff refs r =
      let (found, kept) = any_iff (λ x. x == r) refs in
      (
        λ h. Any-mono (λ x e. (ref_eq.beq_iff x r).0 e) refs (found h),
        λ h. kept (Any-mono (λ x e. (ref_eq.beq_iff x r).1 e) refs h),
      )

  points_iff : (r : ObjectRef) → Any (λ x. x ≡ r) attach_points ↔ IsAttachPoint ctx gateway r
  unfolding attach_points listener_sets_of
  points_iff r =
      let (found, kept) =
        filter_map_iff (λ x. x ≡ r)
          (λ (obj : Object). owned_by (gateway_ref gateway) obj.k8s_object) ctx.objects in
      let (forth, back) = ref_eq_iff (gateway_ref gateway) r in
      (
        elim [
          | inl h ↦ inl (forth h)
          | inr h ↦
              inr
                (Any-mono (λ obj k. (set_given gateway r obj.k8s_object).0 k) ctx.objects (found h))
        ],
        elim [
          | inl h ↦ inl (back h)
          | inr h ↦
              inr
                (kept (Any-mono (λ obj k. (set_given gateway r obj.k8s_object).1 k) ctx.objects h))
        ],
      )

  reaches_iff : (p : Parent) → (reaches attach_points p ≡ true) ↔ Reaches ctx gateway p
  reaches_iff p =
      let inside = iff_trans (contains_iff attach_points (ref_of p)) (points_iff (ref_of p)) in
      elim (Bool-cases (p.group == ObjectKinds.group_name)) [
        | inl e ↦
            rw (reaches, e)
              (
                λ h. ((string_eq.beq_iff p.group ObjectKinds.group_name).0 e, inside.0 h),
                λ (_, h). inside.1 h,
              )
        | inr e ↦
            rw (reaches, e)
              (
                λ h. cc,
                λ (same, _). absurd (
                    false≢true (sym e ∙ (string_eq.beq_iff p.group ObjectKinds.group_name).1 same)),
              )
      ]

  any_reaches_iff :
      (rs : List Route)
      → (any_reaches attach_points rs ≡ true)
        ↔ Any (λ route. Any (Reaches ctx gateway) (parents_of route)) rs
  unfolding any_reaches
  any_reaches_iff rs =
      let (found, kept) = any_iff (λ route. any (reaches attach_points) (parents_of route)) rs in
      (
        λ h.
            Any-mono
              (λ route e.
                Any-mono (λ p k. (reaches_iff p).0 k) (parents_of route)
                  ((any_iff (reaches attach_points) (parents_of route)).0 e))
              rs (found h),
        λ h. kept (
            Any-mono
              (λ route e.
                (any_iff (reaches attach_points) (parents_of route)).1
                  (Any-mono (λ p k. (reaches_iff p).1 k) (parents_of route) e))
              rs h),
      )

  judge_iff : (is_empty (judge ctx gateway) ≡ false) ↔ (
      (is_empty (routes ctx) ≡ false)
      × ¬ Any (λ route. Any (Reaches ctx gateway) (parents_of route)) (routes ctx))
  unfolding judge attach_points
  judge_iff =
      let (forth, back) = any_reaches_iff (routes ctx) in
      elim (Bool-cases (is_empty (routes ctx))) [
        | inl e ↦ rw e (λ h. cc, λ h. cc)
        | inr e ↦ elim (Bool-cases (any_reaches attach_points (routes ctx))) [
          | inl f ↦ rw (e, f) (λ h. cc, λ (_, none_reaches). absurd (none_reaches (forth f)))
          | inr f ↦ rw (e, f) (λ h. (refl, λ k. false≢true (sym f ∙ back k)), λ h. refl)
        ]
      ]

module _ (ctx : LintContext) where
  some_route : (P : Route → Type 0) → Any P (routes ctx) ↔ SomeRoute ctx P
  unfolding routes
  some_route P = filter_map_iff P (λ (obj : Object). as_route obj.k8s_object) ctx.objects

  routes_iff : (is_empty (routes ctx) ≡ false) ↔ SomeRoute ctx (λ _. Unit)
  routes_iff = iff_trans (is_empty-eq-false (routes ctx)) (some_route (λ _. Unit))

-- Of a Gateway of either version, gateway-serves-no-routes reports something exactly when the
-- manifest set has a route, and no route has a parentRef in the Gateway API group to the Gateway, or
-- to a ListenerSet of the manifest set whose own parentRef has the Gateway's name and namespace,
-- whatever its group and kind.
pub serves_no_routes_iff :
    (ctx : LintContext) (object : Object) (gateway : Gateway)
    → as_gateway object.k8s_object ≡ some gateway
    → (is_empty (check_func ctx object) ≡ false) ↔ (
        SomeRoute ctx (λ _. Unit)
        × ¬ SomeRoute ctx (λ route. Any (Reaches ctx gateway) (parents_of route)))
unfolding check_func
serves_no_routes_iff ctx object gateway e =
    let (judged, reported) = judge_iff ctx gateway in
    let (found, kept) = routes_iff ctx in
    let (reach, reached) = some_route ctx (λ route. Any (Reaches ctx gateway) (parents_of route)) in
    rw (check_func, e)
      (
        λ h. let (a, b) = judged h in (found a, λ k. b (reached k)),
        λ (a, b). reported (kept a, λ k. b (reach k)),
      )
