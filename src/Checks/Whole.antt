-- ===== src/Checks/Whole.antt =====
-- The checks on parentRefs and on policies, over a whole object.
use mathlib.Core.Path.{subst}
use gwlint.Prelude.{
  String, Option, some, List, [], Bool, true, false, refl, if◌then◌else◌, ◌≡◌, ◌↔◌, sym, is_empty,
  filter_map, filter_map_nonempty, Any, All, Diagnostic,
}
use gwlint.ObjectKinds
use gwlint.Api.{LintContext, Object, BackendTrafficPolicy, backend_traffic_policy}
use gwlint.GatewayApi.Route.{Route, as_route}
use gwlint.GatewayApi.Parent.{ref_of, parents_of, listeners_by_owner}
use gwlint.GatewayApi.Parent.Selection.{selected, entries_of}
use gwlint.Checks.RouteNotPermitted
use gwlint.Checks.RouteNotPermitted.Refusal.{Refuses, route_not_permitted_iff}
use gwlint.Checks.ProtocolMismatch
use gwlint.Checks.ProtocolMismatch.Carriage.{Carries, Mismatches, protocol_mismatch_iff}
use gwlint.Checks.HostnameNeverMatches
use gwlint.Checks.HostnameNeverMatches.Disjoint.{CanMatch, NeverMatches, disjoint_hostnames_iff}
use gwlint.Checks.ListenerNotFound
use gwlint.Checks.ListenerNotFound.Missing.{LacksEntry, listener_not_found_iff}
use gwlint.Checks.ConflictingPolicies
use gwlint.Checks.ConflictingPolicies.{targets_of}
use gwlint.Checks.ConflictingPolicies.Reporter.{IsContested, IsPreceded, conflict_iff}

module _ {A : Type 0} (judge : A → Option Diagnostic) (P : A → Type 0)
    (says : (x : A) → ((d : Diagnostic) × (judge x ≡ some d)) ↔ P x) where
  -- A check that runs the loop over some list reports something where the loop's body does.
  lifted :
      (ds : List Diagnostic) (xs : List A)
      → ds ≡ filter_map judge xs
      → (is_empty ds ≡ false) ↔ Any P xs
  lifted ds xs e =
      subst (λ ys. (is_empty ys ≡ false) ↔ Any P xs) (sym e) (filter_map_nonempty judge P says xs)

unless_nonempty :
    (b : Bool) (ds : List Diagnostic)
    → (is_empty (if b then [] else ds) ≡ false) ↔ ((b ≡ false) × (is_empty ds ≡ false))
unless_nonempty true ds = (λ h. cc, λ (h, _). cc)
unless_nonempty false ds = (λ h. (refl, h), λ (_, h). h)

module _ (ctx : LintContext) (object : Object) (route : Route)
    (is_route : as_route object.k8s_object ≡ some route) where
  not_permitted_loop :
      RouteNotPermitted.check_func ctx object
      ≡ filter_map (RouteNotPermitted.judge (listeners_by_owner ctx) route) (parents_of route)
  unfolding RouteNotPermitted.check_func
  not_permitted_loop = rw (is_route, RouteNotPermitted.check_func)

  -- Of a route, route-not-permitted reports something exactly when a parentRef in the Gateway API
  -- group selects a listener of the manifest set, and every listener that it selects either does
  -- not admit the route's namespace or lists kinds of its own that do not admit the route's. A
  -- listener that only its protocol's default kinds close to the route does not count as one that
  -- refuses it here. Only listeners of v1 Gateways and of ListenerSets are ever selected, none of
  -- a v1beta1 Gateway.
  pub not_permitted_check_iff :
      (is_empty (RouteNotPermitted.check_func ctx object) ≡ false)
      ↔ Any
          (λ p.
            (p.group ≡ ObjectKinds.group_name)
            × (All (Refuses route) (selected ctx p) × (is_empty (selected ctx p) ≡ false)))
          (parents_of route)
  not_permitted_check_iff =
      lifted _ _ (route_not_permitted_iff ctx route) _ (parents_of route) not_permitted_loop

  protocol_loop :
      ProtocolMismatch.check_func ctx object
      ≡ filter_map (ProtocolMismatch.judge (listeners_by_owner ctx) route) (parents_of route)
  unfolding ProtocolMismatch.check_func
  protocol_loop = rw (is_route, ProtocolMismatch.check_func)

  -- Of a route, protocol-mismatch reports something exactly when a parentRef in the Gateway API
  -- group selects a listener that mismatches the route and none that carries it. A listener
  -- mismatches the route where it admits the route's namespace, its protocol is HTTP, HTTPS, TLS,
  -- TCP or UDP and does not carry the route's kind, and it either lists no kinds of its own or
  -- accepts the route's kind by those. It carries the route where it admits the route's namespace
  -- and its protocol is none of the five or carries the route's kind. HTTP and HTTPS carry
  -- HTTPRoute and GRPCRoute, and TLS, TCP and UDP the kind of their own name. Only listeners of v1
  -- Gateways and of ListenerSets are ever selected.
  pub protocol_check_iff :
      (is_empty (ProtocolMismatch.check_func ctx object) ≡ false)
      ↔ Any
          (λ p.
            (p.group ≡ ObjectKinds.group_name)
            × (All (λ l. ¬ Carries route l) (selected ctx p)
                × Any (Mismatches route) (selected ctx p)))
          (parents_of route)
  protocol_check_iff =
      lifted _ _ (protocol_mismatch_iff ctx route) _ (parents_of route) protocol_loop

  hostname_loop : HostnameNeverMatches.check_func ctx object ≡ (
      if is_empty route.hostnames
      then []
      else filter_map
          (HostnameNeverMatches.judge (listeners_by_owner ctx) route)
          (parents_of route))
  unfolding HostnameNeverMatches.check_func
  hostname_loop = rw (is_route, HostnameNeverMatches.check_func)

  -- Of a route, hostname-never-matches reports something exactly when the route has a hostname and
  -- a parentRef in the Gateway API group selects a listener that admits the route but shares no
  -- host with it, and none that admits the route and can share a host with it. Only listeners of
  -- v1 Gateways and of ListenerSets are ever selected.
  pub hostname_check_iff : (is_empty (HostnameNeverMatches.check_func ctx object) ≡ false) ↔ (
      (is_empty route.hostnames ≡ false)
      × Any
          (λ p.
            (p.group ≡ ObjectKinds.group_name)
            × (All (λ l. ¬ CanMatch route l) (selected ctx p)
                × Any (NeverMatches route) (selected ctx p)))
          (parents_of route))
  hostname_check_iff =
      let (read, build) = unless_nonempty (is_empty route.hostnames) (
        filter_map (HostnameNeverMatches.judge (listeners_by_owner ctx) route)
          (parents_of route)) in
      let (found, kept) = lifted _ _ (disjoint_hostnames_iff ctx route) _ (parents_of route) refl in
      rw hostname_loop (
        λ h. let (hosts, some_d) = read h in (hosts, found some_d),
        λ (hosts, some_p). build (hosts, kept some_p),
      )

  listener_loop :
      ListenerNotFound.check_func ctx object
      ≡ filter_map (ListenerNotFound.judge (listeners_by_owner ctx) route) (parents_of route)
  unfolding ListenerNotFound.check_func
  listener_loop = rw (is_route, ListenerNotFound.check_func)

  -- Of a route, listener-not-found reports something exactly when a parentRef in the Gateway API
  -- group names a section, and the v1 Gateways and ListenerSets of the manifest set that have the
  -- kind, namespace and name of the parentRef declare some listener but none of that name. The
  -- listeners of a v1beta1 Gateway do not count, so a parentRef to one is not reported.
  pub listener_check_iff :
      (is_empty (ListenerNotFound.check_func ctx object) ≡ false)
      ↔ Any
          (λ p.
            (p.group ≡ ObjectKinds.group_name)
            × ((section : String) × (p.section ≡ some section)
                × LacksEntry (entries_of ctx (ref_of p)) section))
          (parents_of route)
  listener_check_iff =
      lifted _ _ (listener_not_found_iff ctx route) _ (parents_of route) listener_loop

conflict_loop :
    (ctx : LintContext) (object : Object) (policy : BackendTrafficPolicy)
    → object.k8s_object ≡ backend_traffic_policy policy
    → ConflictingPolicies.check_func ctx object
      ≡ filter_map (ConflictingPolicies.judge ctx policy) (targets_of policy)
unfolding ConflictingPolicies.check_func
conflict_loop ctx object policy e = rw e

-- Of a policy, conflicting-policies reports something exactly when another policy of the manifest
-- set claims one of the policy's slots and no other that claims it has a name that comes before
-- the policy's own.
pub conflict_check_iff :
    (ctx : LintContext) (object : Object) (policy : BackendTrafficPolicy)
    → object.k8s_object ≡ backend_traffic_policy policy
    → (is_empty (ConflictingPolicies.check_func ctx object) ≡ false)
      ↔ Any (λ t. IsContested ctx policy t × (¬ IsPreceded ctx policy t)) (targets_of policy)
conflict_check_iff ctx object policy e =
    lifted _ _ (conflict_iff ctx policy) _ (targets_of policy) (conflict_loop ctx object policy e)
