-- ===== src/Checks/FqdnBackendColdStart/Coverage/Agreement.antt =====
-- The check's own resolution of a policy's routes against that of pkg/gatewayapi.
use mathlib.Core.Path.{subst}
use gwlint.Prelude.{
  String, Option, none, some, List, [], ◌∷◌, ◌++◌, Bool, true, false, not, ◌==◌, ◌&&◌, ◌||◌, ◌≡◌,
  inl, inr, refl, sym, ap, ◌∙◌, arith, map, filter_map, contains, if◌then◌else◌, Bool-cases,
  or_else, consider,
}
use gwlint.Prelude.Tests.{string_eq}
use gwlint.ObjectKinds
use gwlint.Api.{
  LintContext, Object, K8sObject, gateway_v1, gateway_v1beta1, http_route_v1, http_route_v1beta1,
  grpc_route_v1, grpc_route_v1alpha2, tcp_route_v1, tcp_route_v1alpha2, tls_route_v1,
  tls_route_v1alpha3, tls_route_v1alpha2, udp_route_v1, udp_route_v1alpha2, gateway_class_v1,
  gateway_class_v1beta1, reference_grant_v1, reference_grant_v1beta1, reference_grant_v1alpha2,
  service, secret, backend, backend_traffic_policy, unstructured, other_object, listener_set_v1,
}
use gwlint.GatewayApi.Route.{Route}
use gwlint.GatewayApi.Parent.{ObjectRef, listener_set_parent}
use gwlint.GatewayApi.PolicyCoverage.{policy_route_key_of, key_eq, append_unseen, append_of_sets}
use gwlint.GatewayApi.PolicyCoverage as PolicyCoverage
use gwlint.GatewayApi.PolicyCoverage.Attached.{lists, lists-snoc}
use gwlint.Checks.FqdnBackendColdStart.Coverage.{
  RouteKey, route_key_eq, key_of, append_new, append_sets, ListenerSetRef, routes_attached_to,
  listener_sets_of_gateway,
}
use gwlint.Checks.FqdnBackendColdStart.Coverage as Coverage

-- The keys that the check keeps beside the routes are the routes' own.
Keyed : List RouteKey → List Route → Type 0
Keyed seen found = (r : Route) → contains seen (key_of r) ≡ lists found (policy_route_key_of r)

map-Keyed : (found : List Route) → Keyed (map key_of found) found
unfolding Keyed
map-Keyed [] r = refl
map-Keyed (q ∷ found) r = ap (λ b. key_of q == key_of r || b) (map-Keyed found r)

snoc-Keyed :
    (seen : List RouteKey) (found : List Route) (r : Route)
    → Keyed seen found
    → Keyed (key_of r ∷ seen) (found ++ r ∷ [])
unfolding Keyed
snoc-Keyed seen found r inv q =
    let here = lists-snoc (policy_route_key_of q) found r in let before = inv q in ground arith

append_new-agrees :
    (seen : List RouteKey) (found rs : List Route)
    → Keyed seen found
    → ((append_new seen found rs).1 ≡ append_unseen found rs)
      × Keyed (append_new seen found rs).0 (append_unseen found rs)
unfolding append_new append_unseen Keyed
append_new-agrees seen found [] inv = (refl, inv)
append_new-agrees seen found (r ∷ rs) inv = elim (Bool-cases (contains seen (key_of r))) [
  | inl e ↦
      let k : lists found (policy_route_key_of r) ≡ true = sym (inv r) ∙ e in
      rw (append_new, append_unseen, e, k) (append_new-agrees seen found rs inv)
  | inr e ↦
      let k : lists found (policy_route_key_of r) ≡ false = sym (inv r) ∙ e in
      rw (append_new, append_unseen, e, k)
        (append_new-agrees (key_of r ∷ seen) (found ++ r ∷ []) rs (snoc-Keyed seen found r inv))
]

set_ref : ListenerSetRef → ObjectRef
set_ref ls = record { kind = ObjectKinds.listener_set; namespace = ls.namespace; name = ls.name }

attached_same :
    (ctx : LintContext) (kind namespace name : String) (listener : Option String)
    → routes_attached_to ctx kind namespace name listener
      ≡ PolicyCoverage.routes_attached_to_parent ctx kind namespace name listener
unfolding routes_attached_to PolicyCoverage.routes_attached_to_parent
attached_same ctx kind namespace name listener = refl

append_sets-agrees :
    (ctx : LintContext) (state : List RouteKey × List Route) (sets : List ListenerSetRef)
    → Keyed state.0 state.1
    → (append_sets ctx state sets).1 ≡ append_of_sets ctx state.1 (map set_ref sets)
unfolding append_sets append_of_sets set_ref routes_attached_to
    PolicyCoverage.routes_attached_to_parent
append_sets-agrees ctx state [] inv = refl
append_sets-agrees ctx state (ls ∷ sets) inv =
    let rs = routes_attached_to ctx ObjectKinds.listener_set ls.namespace ls.name none in
    let next = append_new state.0 state.1 rs in
    let (same, kept) = append_new-agrees state.0 state.1 rs inv in
    append_sets-agrees ctx next sets (subst (Keyed next.0) (sym same) kept)
    ∙ ap (λ found. append_of_sets ctx found (map set_ref sets)) same

-- What a field names where it is set.
pub group_alike :
    (o : Option String)
    → not (PolicyCoverage.names_gateway_group o) ≡ Coverage.set_to_other o ObjectKinds.group_name
group_alike none = refl
group_alike (some t) = refl

kind_alike :
    (o : Option String)
    → not (PolicyCoverage.names_gateway_kind o) ≡ Coverage.set_to_other o ObjectKinds.gateway
kind_alike none = refl
kind_alike (some t) = refl

unset_ref : Option ListenerSetRef → Option ObjectRef
unset_ref none = none
unset_ref (some ls) = some (set_ref ls)

guarded_alike :
    (a b c : Bool) (ls : ListenerSetRef)
    → (if a then none else if b then none else if c then some (set_ref ls) else none)
      ≡ unset_ref (if a then none else if b then none else if c then some ls else none)
unfolding unset_ref
guarded_alike true b c ls = refl
guarded_alike false true c ls = refl
guarded_alike false false true ls = refl
guarded_alike false false false ls = refl

set_of-agrees :
    (namespace name : String) (obj : K8sObject)
    → PolicyCoverage.set_of_gateway namespace name obj
      ≡ unset_ref (Coverage.set_of namespace name obj)
unfolding unset_ref set_ref listener_set_parent
set_of-agrees namespace name (listener_set_v1 ls) =
    let group = group_alike ls.parent_ref.group in
    let kind = kind_alike ls.parent_ref.kind in
    rw (group, kind)
      (guarded_alike (Coverage.set_to_other ls.parent_ref.group ObjectKinds.group_name)
        (Coverage.set_to_other ls.parent_ref.kind ObjectKinds.gateway)
        (or_else ls.parent_ref.namespace ls.meta.namespace == namespace
          && ls.parent_ref.name == name)
        (record { namespace = ls.meta.namespace; name = ls.meta.name }))
set_of-agrees namespace name (gateway_v1 o) = refl
set_of-agrees namespace name (gateway_v1beta1 o) = refl
set_of-agrees namespace name (http_route_v1 o) = refl
set_of-agrees namespace name (http_route_v1beta1 o) = refl
set_of-agrees namespace name (grpc_route_v1 o) = refl
set_of-agrees namespace name (grpc_route_v1alpha2 o) = refl
set_of-agrees namespace name (tcp_route_v1 o) = refl
set_of-agrees namespace name (tcp_route_v1alpha2 o) = refl
set_of-agrees namespace name (tls_route_v1 o) = refl
set_of-agrees namespace name (tls_route_v1alpha3 o) = refl
set_of-agrees namespace name (tls_route_v1alpha2 o) = refl
set_of-agrees namespace name (udp_route_v1 o) = refl
set_of-agrees namespace name (udp_route_v1alpha2 o) = refl
set_of-agrees namespace name (gateway_class_v1 o) = refl
set_of-agrees namespace name (gateway_class_v1beta1 o) = refl
set_of-agrees namespace name (reference_grant_v1 o) = refl
set_of-agrees namespace name (reference_grant_v1beta1 o) = refl
set_of-agrees namespace name (reference_grant_v1alpha2 o) = refl
set_of-agrees namespace name (service o) = refl
set_of-agrees namespace name (secret o) = refl
set_of-agrees namespace name (backend o) = refl
set_of-agrees namespace name (backend_traffic_policy o) = refl
set_of-agrees namespace name (unstructured o) = refl
set_of-agrees namespace name (other_object o) = refl

considered :
    (o : Option ListenerSetRef) (ls : List ListenerSetRef)
    → consider (unset_ref o) (map set_ref ls) ≡ map set_ref (consider o ls)
unfolding unset_ref
considered none ls = refl
considered (some s) ls = refl

sets_agree :
    (namespace name : String) (objs : List Object)
    → filter_map (λ obj. PolicyCoverage.set_of_gateway namespace name obj.k8s_object) objs
      ≡ map set_ref (filter_map (λ obj. Coverage.set_of namespace name obj.k8s_object) objs)
sets_agree namespace name [] = refl
sets_agree namespace name (obj ∷ objs) =
    let here = set_of-agrees namespace name obj.k8s_object in
    let rest = sets_agree namespace name objs in
    rw (here, rest) (considered (Coverage.set_of namespace name obj.k8s_object) _)

-- The check finds the same routes under a Gateway, in the same order, as pkg/gatewayapi does, those of
-- its ListenerSets included.
pub gateway_routes_agree :
    (ctx : LintContext) (namespace name : String) (listener : Option String)
    → Coverage.routes_attached_to_gateway ctx namespace name listener
      ≡ PolicyCoverage.routes_attached_to_gateway ctx namespace name listener
unfolding Coverage.routes_attached_to_gateway PolicyCoverage.routes_attached_to_gateway
    listener_sets_of_gateway PolicyCoverage.listener_sets_belonging_to routes_attached_to
    PolicyCoverage.routes_attached_to_parent
gateway_routes_agree ctx namespace name listener =
    append_sets-agrees ctx _ (listener_sets_of_gateway ctx namespace name)
      (map-Keyed (routes_attached_to ctx ObjectKinds.gateway namespace name listener))
    ∙ ap (append_of_sets ctx (routes_attached_to ctx ObjectKinds.gateway namespace name listener))
        (sym (sets_agree namespace name ctx.objects))
