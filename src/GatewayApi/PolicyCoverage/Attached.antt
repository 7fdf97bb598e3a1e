-- ===== src/GatewayApi/PolicyCoverage/Attached.antt =====
-- The routes that a Gateway serves, its ListenerSets' included, up to the routes' identity.
use gwlint.Prelude.{
  String, Option, none, List, [], ◌∷◌, ◌++◌, Bool, ◌≡◌, ap, ◌∙◌, ◌||◌, ◌==◌, any, map, contains,
  Bool-cases, arith, inl, inr,
}
use gwlint.ObjectKinds
use gwlint.Api.{LintContext}
use gwlint.GatewayApi.Route.{Route}
use gwlint.GatewayApi.Parent.{ObjectRef}
use gwlint.GatewayApi.PolicyCoverage.{
  PolicyRouteKey, key_eq, key_beq_iff, policy_route_key_of, routes_attached_to_parent,
  listener_sets_belonging_to, append_unseen, append_of_sets, routes_attached_to_gateway,
}

-- A route of that kind, namespace and name is among the routes.
abbrev pub lists : List Route → PolicyRouteKey → Bool
lists rs key = contains (map policy_route_key_of rs) key

-- Those attached to a ListenerSet.
abbrev pub attached_to_set : LintContext → ObjectRef → List Route
attached_to_set ctx ls =
    routes_attached_to_parent ctx ObjectKinds.listener_set ls.namespace ls.name none

or_assoc : (a b c : Bool) → ((a || b) || c) ≡ (a || (b || c))
or_assoc a b c = ground arith

module _ (key : PolicyRouteKey) where
  pub lists-snoc :
      (rs : List Route) (r : Route)
      → lists (rs ++ r ∷ []) key ≡ (lists rs key || policy_route_key_of r == key)
  lists-snoc [] r = ground arith
  lists-snoc (q ∷ rs) r = ground (arith, lists-snoc rs r)

  lists-append_unseen :
      (found rs : List Route)
      → lists (append_unseen found rs) key ≡ (lists found key || lists rs key)
  unfolding append_unseen
  lists-append_unseen found [] = ground arith
  lists-append_unseen found (r ∷ rs) =
      elim (Bool-cases (contains (map policy_route_key_of found) (policy_route_key_of r))) [
        | inl h ↦
            rw h (
              lists-append_unseen found rs
              ∙ ground (arith, key_beq_iff (policy_route_key_of r) key))
        | inr h ↦
            rw h (lists-append_unseen (found ++ r ∷ []) rs ∙ ground (arith, lists-snoc found r))
      ]

  lists-append_of_sets :
      (ctx : LintContext) (found : List Route) (sets : List ObjectRef)
      → lists (append_of_sets ctx found sets) key
        ≡ (lists found key || any (λ ls. lists (attached_to_set ctx ls) key) sets)
  unfolding append_of_sets
  lists-append_of_sets ctx found [] = ground arith
  lists-append_of_sets ctx found (ls ∷ sets) =
      lists-append_of_sets ctx (append_unseen found (attached_to_set ctx ls)) sets
      ∙ ap (λ b. b || any (λ s. lists (attached_to_set ctx s) key) sets)
          (lists-append_unseen found (attached_to_set ctx ls))
      ∙ or_assoc (lists found key) (lists (attached_to_set ctx ls) key) _

  -- A route of that kind, namespace and name is attached to a Gateway, or to its named listener,
  -- exactly when one is attached to it directly or to a ListenerSet that belongs to it.
  pub lists-routes_attached_to_gateway :
      (ctx : LintContext) (namespace name : String) (listener : Option String)
      → lists (routes_attached_to_gateway ctx namespace name listener) key ≡ (
          lists (routes_attached_to_parent ctx ObjectKinds.gateway namespace name listener) key
          || any
              (λ ls. lists (attached_to_set ctx ls) key)
              (listener_sets_belonging_to ctx namespace name))
  unfolding routes_attached_to_gateway
  lists-routes_attached_to_gateway ctx namespace name listener =
      lists-append_of_sets ctx _ (listener_sets_belonging_to ctx namespace name)
