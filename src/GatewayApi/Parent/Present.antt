-- ===== src/GatewayApi/Parent/Present.antt =====
-- Which references the sets of GatewaysAndListenerSets and BackendTargets hold.
use gwlint.Prelude.{
  is_empty, is_empty-eq-false, false, Option, none, some, List, true, ◌≡◌, ◌↔◌, refl, sym, contains,
  filter_map, filter_map_iff, any_iff, Any, Any-mono, ◌==◌,
}
use gwlint.ObjectKinds
use gwlint.Api.{K8sObject, LintContext, Object, gateway_v1, listener_set_v1, service, backend}
use gwlint.GatewayApi.Parent.{
  ObjectRef, ref_eq, ref_to, ref_with, parent_kind, target_kind, gateways_and_listener_sets,
  backend_targets,
}

-- The object is a v1 Gateway or a ListenerSet of that kind, namespace and name.
abbrev pub IsParentObject : ObjectRef → K8sObject → Type 0
IsParentObject ref (gateway_v1 g) = ref ≡ ref_to ObjectKinds.gateway (gateway_v1 g)
IsParentObject ref (listener_set_v1 s) = ref ≡ ref_to ObjectKinds.listener_set (listener_set_v1 s)
IsParentObject ref _ = ⊥

-- The object is a Service or an Envoy Gateway Backend of that kind, namespace and name.
abbrev pub IsTargetObject : ObjectRef → K8sObject → Type 0
IsTargetObject ref (service m) = ref ≡ ref_to "Service" (service m)
IsTargetObject ref (backend m) = ref ≡ ref_to ObjectKinds.kind_backend (backend m)
IsTargetObject ref _ = ⊥

module _ (ref : ObjectRef) where
  abbrev pub Gives : Option ObjectRef → Type 0
  Gives o = (r : ObjectRef) × (o ≡ some r) × (r ≡ ref)

  pub Gives-some : (r : ObjectRef) → Gives (some r) ↔ (ref ≡ r)
  Gives-some r = (λ (q, e, k). cc, λ e. (r, refl, sym e))

  pub Gives-none : Gives none ↔ ⊥
  Gives-none = (λ (q, e, k). cc, λ h. absurd h)

  Gives-parent_kind : (obj : K8sObject) → Gives (ref_with parent_kind obj) ↔ IsParentObject ref obj
  Gives-parent_kind (gateway_v1 g) = Gives-some _
  Gives-parent_kind (listener_set_v1 s) = Gives-some _
  Gives-parent_kind _ = Gives-none

  Gives-target_kind : (obj : K8sObject) → Gives (ref_with target_kind obj) ↔ IsTargetObject ref obj
  Gives-target_kind (service m) = Gives-some _
  Gives-target_kind (backend m) = Gives-some _
  Gives-target_kind _ = Gives-none

  -- A set built by one pass over the objects holds a reference exactly when an object gives it.
  pub contains-filter_map :
      (give : K8sObject → Option ObjectRef) (P : K8sObject → Type 0) (objs : List Object)
      → ((obj : K8sObject) → Gives (give obj) ↔ P obj)
      → (contains (filter_map (λ obj. give obj.k8s_object) objs) ref ≡ true)
        ↔ Any (λ obj. P obj.k8s_object) objs
  contains-filter_map give P objs h =
      let (found, listed) =
        any_iff (λ r. r == ref) (filter_map (λ obj. give obj.k8s_object) objs) in
      let (given, kept) =
        filter_map_iff (λ r. (r == ref) ≡ true) (λ obj. give obj.k8s_object) objs in
      (
        λ k.
            Any-mono
              (λ obj (r, e, same). (h obj.k8s_object).0 (r, e, (ref_eq.beq_iff r ref).0 same)) objs
              (given (found k)),
        λ k. listed (
            kept (
              Any-mono
                (λ obj p.
                  let (r, e, same) = (h obj.k8s_object).1 p in
                  (r, e, (ref_eq.beq_iff r ref).1 same))
                objs k)),
      )

  -- GatewaysAndListenerSets holds a reference exactly when some object of the set is a v1 Gateway or
  -- a ListenerSet of that name.
  pub contains-gateways_and_listener_sets :
      (ctx : LintContext)
      → (contains (gateways_and_listener_sets ctx) ref ≡ true)
        ↔ Any (λ obj. IsParentObject ref obj.k8s_object) ctx.objects
  unfolding gateways_and_listener_sets
  contains-gateways_and_listener_sets ctx =
      contains-filter_map (ref_with parent_kind) (IsParentObject ref) ctx.objects Gives-parent_kind

  -- BackendTargets holds a reference exactly when some object of the set is a Service or a Backend
  -- of that name.
  pub contains-backend_targets :
      (ctx : LintContext)
      → (contains (backend_targets ctx) ref ≡ true)
        ↔ Any (λ obj. IsTargetObject ref obj.k8s_object) ctx.objects
  unfolding backend_targets
  contains-backend_targets ctx =
      contains-filter_map (ref_with target_kind) (IsTargetObject ref) ctx.objects Gives-target_kind

-- It is empty exactly when the set has neither.
pub is_empty-gateways_and_listener_sets :
    (ctx : LintContext)
    → (is_empty (gateways_and_listener_sets ctx) ≡ false)
      ↔ Any (λ obj. (ref : ObjectRef) × IsParentObject ref obj.k8s_object) ctx.objects
unfolding gateways_and_listener_sets
is_empty-gateways_and_listener_sets ctx =
    let give = λ (obj : Object). ref_with parent_kind obj.k8s_object in
    let (some_ref, nonempty) = is_empty-eq-false (filter_map give ctx.objects) in
    let (given, kept) = filter_map_iff (λ _. Unit) give ctx.objects in
    (
      λ h.
          Any-mono (λ obj (r, e, _). (r, (Gives-parent_kind r obj.k8s_object).0 (r, e, refl)))
            ctx.objects (given (some_ref h)),
      λ k. nonempty (
          kept (
            Any-mono
              (λ obj (ref, p).
                let (r, e, _) = (Gives-parent_kind ref obj.k8s_object).1 p in (r, e, tt))
              ctx.objects k)),
    )
