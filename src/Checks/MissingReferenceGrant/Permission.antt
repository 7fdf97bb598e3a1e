-- ===== src/Checks/MissingReferenceGrant/Permission.antt =====
-- Which backendRefs missing-reference-grant denies, read off the objects of the manifest set.
use mathlib.Core.Path.{subst}
use mathlib.Core.Bool.{false≢true}
use gwlint.Prelude.{
  differs_iff, String, Option, none, some, List, [], ◌∷◌, Bool, true, false, ◌≡◌, ◌≢◌, ◌↔◌, ◌⊎◌,
  inl, inr, refl, sym, ◌∙◌, ap, ◌==◌, ◌&&◌, iff_trans, is_empty, filter_map, filter_map_nonempty,
  any_iff, eq-false_of_ne, Bool-cases, Any, Any-mono, arith, Diagnostic, lookup, get, lookup-push,
  extended, extended-push, or_else, consider, if◌then◌else◌, extended-nil, filter_map_iff,
}
use gwlint.Prelude.Tests.{string_eq}
use gwlint.ObjectKinds
use gwlint.Api.{
  LintContext, Object, K8sObject, ReferenceGrantSpec, ReferenceGrantFrom, ReferenceGrantTo, meta_of,
}
use gwlint.GatewayApi.Route.{Route, BackendRef, as_route, backend_namespace}
use gwlint.Checks.MissingReferenceGrant.{
  Reference, spec_of, add_grant, index_grants, grants_by_namespace, matches_from, matches_to,
  matches_entry, names, permits, reference_of, message, judge, check_func,
}

-- The spec of a grant that lives in the namespace.
abbrev pub spec_in : String → K8sObject → Option ReferenceGrantSpec
spec_in ns obj = if (meta_of obj).namespace == ns then spec_of obj else none

abbrev specs_in : String → List Object → List ReferenceGrantSpec
specs_in ns objs = filter_map (λ obj. spec_in ns obj.k8s_object) objs

lookup-add_grant :
    (ns at : String) (spec : Option ReferenceGrantSpec)
    (m : List (String × List ReferenceGrantSpec)) (rest : List ReferenceGrantSpec)
    → extended (lookup ns (add_grant at spec m)) rest
      ≡ extended (lookup ns m) (consider (if at == ns then spec else none) rest)
lookup-add_grant ns at none m rest = elim (Bool-cases (at == ns)) [
  | inl h ↦ rw h refl
  | inr h ↦ rw h refl
]
lookup-add_grant ns at (some spec) m rest = elim (Bool-cases (at == ns)) [
  | inl h ↦ rw (lookup-push ns at spec m, h) (extended-push (lookup ns m) spec rest)
  | inr h ↦ rw (lookup-push ns at spec m, h) refl
]

lookup-index_grants :
    (ns : String) (objs : List Object) (m : List (String × List ReferenceGrantSpec))
    → lookup ns (index_grants objs m) ≡ extended (lookup ns m) (specs_in ns objs)
unfolding index_grants
lookup-index_grants ns [] m = extended-nil (lookup ns m)
lookup-index_grants ns (obj ∷ objs) m =
    lookup-index_grants ns objs _
    ∙ lookup-add_grant ns (meta_of obj.k8s_object).namespace (spec_of obj.k8s_object) m
        (specs_in ns objs)

or_else-extended : (specs : List ReferenceGrantSpec) → or_else (extended none specs) [] ≡ specs
or_else-extended [] = refl
or_else-extended (spec ∷ specs) = refl

-- The index yields the specs of the grants that live in the namespace, in order.
get-grants_by_namespace :
    (ctx : LintContext) (ns : String) → get ns (grants_by_namespace ctx) ≡ specs_in ns ctx.objects
unfolding grants_by_namespace
get-grants_by_namespace ctx ns =
    ap (λ o. or_else o []) (lookup-index_grants ns ctx.objects [])
    ∙ or_else-extended (specs_in ns ctx.objects)

-- One entry of each list of the spec fits the reference.
abbrev pub Permits : Reference → ReferenceGrantSpec → Type 0
Permits ref spec =
    Any
      (λ f.
        (f.group ≡ ObjectKinds.group_name)
        × (f.kind ≡ ref.from_kind)
        × (f.namespace ≡ ref.from_namespace))
      spec.from
    × Any
        (λ t.
          (t.group ≡ ref.to_group)
          × (t.kind ≡ ref.to_kind)
          × ((t.name ≡ none) ⊎ (t.name ≡ some ref.to_name)))
        spec.to

-- The set has a grant in the namespace.
abbrev pub HasGrant : LintContext → String → Type 0
HasGrant ctx ns =
    Any (λ obj. (spec : ReferenceGrantSpec) × (spec_in ns obj.k8s_object ≡ some spec)) ctx.objects

-- The set has a grant there that permits the reference.
abbrev pub IsGranted : LintContext → String → Reference → Type 0
IsGranted ctx ns ref =
    Any
      (λ obj.
        (spec : ReferenceGrantSpec) × (spec_in ns obj.k8s_object ≡ some spec) × Permits ref spec)
      ctx.objects

from_iff :
    (f : ReferenceGrantFrom) (ref : Reference)
    → ((f.group == ObjectKinds.group_name
          && (f.kind == ref.from_kind && f.namespace == ref.from_namespace))
        ≡ true)
      ↔ ((f.group ≡ ObjectKinds.group_name)
          × (f.kind ≡ ref.from_kind)
          × (f.namespace ≡ ref.from_namespace))
from_iff f ref = ground (
  arith,
  string_eq.beq_iff f.group ObjectKinds.group_name,
  string_eq.beq_iff f.kind ref.from_kind,
  string_eq.beq_iff f.namespace ref.from_namespace,
)

names_iff : (o : Option String) (n : String) → (names o n ≡ true) ↔ ((o ≡ none) ⊎ (o ≡ some n))
names_iff none n = (λ _. inl refl, λ _. refl)
names_iff (some m) n = (
  λ h. inr (ap some ((string_eq.beq_iff m n).0 h)),
  elim [ inl h ↦ cc | inr h ↦ (string_eq.beq_iff m n).1 (cc) ],
)

entry_iff :
    (t : ReferenceGrantTo) (ref : Reference)
    → (matches_entry t ref ≡ true) ↔ (
        (t.group ≡ ref.to_group)
        × (t.kind ≡ ref.to_kind)
        × ((t.name ≡ none) ⊎ (t.name ≡ some ref.to_name)))
entry_iff t ref = ground (
  arith,
  string_eq.beq_iff t.group ref.to_group,
  string_eq.beq_iff t.kind ref.to_kind,
  names_iff t.name ref.to_name,
)

both_true : (a b : Bool) → ((a && b) ≡ true) ↔ ((a ≡ true) × (b ≡ true))
both_true a b = ground arith

module _ (ref : Reference) where
  spec_iff :
      (spec : ReferenceGrantSpec)
      → ((matches_from spec.from ref && matches_to spec.to ref) ≡ true) ↔ Permits ref spec
  unfolding matches_from matches_to
  spec_iff spec =
      let (from_found, from_kept) = any_iff _ spec.from in
      let (to_found, to_kept) = any_iff (λ t. matches_entry t ref) spec.to in
      (
        λ h.
            let (a, b) = (both_true _ _).0 h in
            (
              Any-mono (λ f. (from_iff f ref).0) spec.from (from_found a),
              Any-mono (λ t. (entry_iff t ref).0) spec.to (to_found b),
            ),
        λ (a, b). (both_true _ _).1 (
          from_kept (Any-mono (λ f. (from_iff f ref).1) spec.from a),
          to_kept (Any-mono (λ t. (entry_iff t ref).1) spec.to b),
        ),
      )

  permits_iff :
      (specs : List ReferenceGrantSpec) → (permits specs ref ≡ true) ↔ Any (Permits ref) specs
  unfolding permits
  permits_iff specs =
      iff_trans (any_iff _ specs)
        (Any-mono (λ spec. (spec_iff spec).0) specs, Any-mono (λ spec. (spec_iff spec).1) specs)

-- The reference leaves the route's namespace for one that has a grant and no grant there permits it.
abbrev pub Denied : LintContext → Route → BackendRef → Type 0
Denied ctx route b =
    (backend_namespace b route.namespace ≢ route.namespace)
    × HasGrant ctx (backend_namespace b route.namespace)
    × (¬ IsGranted ctx (backend_namespace b route.namespace) (reference_of route b))

passed_over :
    (a b c : Bool) (d : Diagnostic)
    → ((x : Diagnostic) × ((if a then none else if b then none else if c then none else some d)
          ≡ some x))
      ↔ ((a ≡ false) × (b ≡ false) × (c ≡ false))
passed_over true b c d = (λ (x, e). cc, λ h. cc)
passed_over false true c d = (λ (x, e). cc, λ h. cc)
passed_over false false true d = (λ (x, e). cc, λ h. cc)
passed_over false false false d = (λ _. (refl, refl, refl), λ _. (d, refl))

module _ (ctx : LintContext) where
  is_empty-HasGrant :
      (ns : String) → (is_empty (get ns (grants_by_namespace ctx)) ≡ false) ↔ HasGrant ctx ns
  is_empty-HasGrant ns = rw (get-grants_by_namespace ctx ns) (
      filter_map_nonempty (λ obj. spec_in ns obj.k8s_object) _ (λ obj. (λ h. h, λ h. h))
        ctx.objects)

  denied_iff :
      (ns : String) (ref : Reference)
      → (permits (get ns (grants_by_namespace ctx)) ref ≡ false) ↔ (¬ IsGranted ctx ns ref)
  denied_iff ns ref =
      let granted =
        iff_trans (permits_iff ref (specs_in ns ctx.objects))
          (filter_map_iff (Permits ref) (λ obj. spec_in ns obj.k8s_object) ctx.objects) in
      rw (get-grants_by_namespace ctx ns)
        (λ h k. false≢true (sym h ∙ granted.1 k), λ h. eq-false_of_ne (λ k. h (granted.0 k)))

  judge_iff :
      (route : Route) (b : BackendRef)
      → ((d : Diagnostic) × (judge (grants_by_namespace ctx) route b ≡ some d)) ↔ Denied ctx route b
  unfolding judge
  judge_iff route b =
      let ns = backend_namespace b route.namespace in
      let grants = get ns (grants_by_namespace ctx) in
      let (read, build) =
        passed_over (ns == route.namespace) (is_empty grants)
          (permits grants (reference_of route b)) (message route (reference_of route b) ns) in
      (
        λ h.
            let (crosses, has, denied) = read h in
            (
              (differs_iff ns route.namespace).0 crosses,
              (is_empty-HasGrant ns).0 has,
              (denied_iff ns (reference_of route b)).0 denied,
            ),
        λ (crosses, has, denied). build (
          (differs_iff ns route.namespace).1 crosses,
          (is_empty-HasGrant ns).1 has,
          (denied_iff ns (reference_of route b)).1 denied,
        ),
      )

  check_func-filter_map :
      (object : Object) (route : Route)
      → as_route object.k8s_object ≡ some route
      → check_func ctx object ≡ (
          if route.namespace == ""
          then []
          else filter_map (judge (grants_by_namespace ctx) route) route.backend_refs)
  unfolding check_func
  check_func-filter_map object route e = rw (e, check_func)

  guarded_nonempty :
      (b : Bool) (ds : List Diagnostic)
      → (is_empty (if b then [] else ds) ≡ false) ↔ ((b ≡ false) × (is_empty ds ≡ false))
  guarded_nonempty true ds = (λ h. cc, λ (h, _). cc)
  guarded_nonempty false ds = (λ h. (refl, h), λ (_, h). h)

  pub missing_grant_iff :
      (object : Object) (route : Route)
      → as_route object.k8s_object ≡ some route
      → (is_empty (check_func ctx object) ≡ false)
        ↔ ((route.namespace ≢ "") × Any (Denied ctx route) route.backend_refs)
  missing_grant_iff object route e =
      let (read, build) = guarded_nonempty (route.namespace == "") _ in
      let (found, kept) =
        filter_map_nonempty (judge (grants_by_namespace ctx) route) (Denied ctx route)
          (judge_iff route) route.backend_refs in
      subst
        (λ ds.
          (is_empty ds ≡ false)
          ↔ ((route.namespace ≢ "") × Any (Denied ctx route) route.backend_refs))
        (sym (check_func-filter_map object route e))
        (
          λ h.
              let (named, denied) = read h in
              ((differs_iff route.namespace "").0 named, found denied),
          λ (named, denied). build ((differs_iff route.namespace "").1 named, kept denied),
        )
