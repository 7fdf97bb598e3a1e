-- ===== src/GatewayApi/Parent.antt =====
-- pkg/gatewayapi/parent.go, listenerselect.go, gateway.go, gatewayclass.go and gatewaylistener.go:
-- what a route attaches to, and the listeners that a manifest set declares.
pub mod Declared
pub mod Entries
pub mod Selection
pub mod Present
use gwlint.Prelude.{
  String, Option, none, some, List, [], ◌∷◌, map, filter_map, Bool, true, ◌&&◌, Eq, ◌==◌, ◌≡◌, ◌↔◌,
  arith, or_else, find?, push_all, get, if◌then◌else◌,
}
use gwlint.Prelude.Tests.{string_eq}
use gwlint.Api.{
  ℤ, ListenerEntry, ListenerTlsConfig, AllowedRoutes, Gateway, ListenerSet, K8sObject, LintContext,
  Object, meta_of, gateway_v1, gateway_v1beta1, listener_set_v1, service, backend, gateway_class_v1,
  gateway_class_v1beta1,
}
use gwlint.ObjectKinds
use gwlint.GatewayApi.Route.{Route}

pub record Parent : Type 0 where
  pub group : String
  pub kind : String
  pub namespace : String
  pub name : String
  pub section : Option String

unfoldable pub parents_of : Route → List Parent
parents_of route =
    map
      (λ ref. record {
        group = or_else ref.group ObjectKinds.group_name;
        kind = or_else ref.kind ObjectKinds.gateway;
        namespace = or_else ref.namespace route.namespace;
        name = ref.name;
        section = ref.section_name;
      })
      route.parent_refs

-- Parent.Matches
unfoldable pub matches : Parent → String → String → String → Bool
matches p kind namespace name =
    p.group == ObjectKinds.group_name
    && p.kind == kind
    && p.namespace == namespace
    && p.name == name

-- `a == nil || b == nil || *b == *a`
abbrev agrees : Option String → Option String → Bool
agrees none _ = true
agrees (some a) none = true
agrees (some a) (some b) = b == a

-- Parent.CoversListener
unfoldable pub covers_listener : Parent → Option String → Bool
covers_listener p listener = agrees listener p.section

pub record ObjectRef : Type 0 where
  pub kind : String
  pub namespace : String
  pub name : String

abbrev pub ref_beq : ObjectRef → ObjectRef → Bool
ref_beq a b = a.kind == b.kind && a.namespace == b.namespace && a.name == b.name

pub ref_beq_iff : (a b : ObjectRef) → (ref_beq a b ≡ true) ↔ (a ≡ b)
ref_beq_iff a b = ground (
  arith,
  string_eq.beq_iff a.kind b.kind,
  string_eq.beq_iff a.namespace b.namespace,
  string_eq.beq_iff a.name b.name,
)

instance abbrev pub ref_eq : Eq ObjectRef
ref_eq = record { beq = ref_beq; beq_iff = ref_beq_iff }

-- The object that a parentRef names.
abbrev pub ref_of : Parent → ObjectRef
ref_of p = record { kind = p.kind; namespace = p.namespace; name = p.name }

-- `found[ObjectRef{kind, obj.GetNamespace(), obj.GetName()}]`
abbrev pub ref_to : String → K8sObject → ObjectRef
ref_to kind obj = record {
  kind = kind;
  namespace = (meta_of obj).namespace;
  name = (meta_of obj).name;
}

-- The type switch of GatewaysAndListenerSets: the v1beta1 Gateway has no case.
abbrev parent_kind : K8sObject → Option String
parent_kind (gateway_v1 _) = some ObjectKinds.gateway
parent_kind (listener_set_v1 _) = some ObjectKinds.listener_set
parent_kind _ = none

abbrev pub ref_with : (K8sObject → Option String) → K8sObject → Option ObjectRef
ref_with kind_of obj = elim (kind_of obj) [ none ↦ none | some kind ↦ some (ref_to kind obj) ]

-- A set of objects is the list of its elements.
unfoldable pub gateways_and_listener_sets : LintContext → List ObjectRef
gateways_and_listener_sets ctx = filter_map (λ obj. ref_with parent_kind obj.k8s_object) ctx.objects

unfoldable pub listener_set_parent : ListenerSet → ObjectRef
listener_set_parent ls = record {
  kind = ObjectKinds.gateway;
  namespace = or_else ls.parent_ref.namespace ls.meta.namespace;
  name = ls.parent_ref.name;
}

abbrev target_kind : K8sObject → Option String
target_kind (service _) = some "Service"
target_kind (backend _) = some ObjectKinds.kind_backend
target_kind _ = none

unfoldable pub backend_targets : LintContext → List ObjectRef
backend_targets ctx = filter_map (λ obj. ref_with target_kind obj.k8s_object) ctx.objects

unfoldable pub resolvable_backend_kind : String → String → Bool
resolvable_backend_kind group kind =
    if group == "" && kind == "Service"
    then true
    else group == ObjectKinds.envoy_group_name && kind == ObjectKinds.kind_backend

pub record Listener : Type 0 where
  pub owner : ObjectRef
  pub name : String
  pub hostname : Option String
  pub port : ℤ
  pub protocol : String
  pub allowed : Option AllowedRoutes
  pub owner_kind : String

abbrev pub listener_of : String → ObjectRef → ListenerEntry → Listener
listener_of kind owner l = record {
  owner = owner;
  name = l.name;
  hostname = l.hostname;
  port = l.port;
  protocol = l.protocol;
  allowed = l.allowed_routes;
  owner_kind = kind;
}

-- Here too the v1beta1 Gateway has no case.
unfoldable pub listeners_of : K8sObject → List Listener
listeners_of (gateway_v1 parent) =
    map
      (listener_of ObjectKinds.gateway (record {
        kind = ObjectKinds.gateway;
        namespace = parent.meta.namespace;
        name = parent.meta.name;
      }))
      parent.listeners
listeners_of (listener_set_v1 parent) =
    map
      (listener_of ObjectKinds.listener_set (record {
        kind = ObjectKinds.listener_set;
        namespace = parent.meta.namespace;
        name = parent.meta.name;
      }))
      parent.listeners
listeners_of _ = []

-- The two loops of ListenersByOwner, from the map built so far.
unfoldable pub index_listeners :
    List Object → List (ObjectRef × List Listener) → List (ObjectRef × List Listener)
index_listeners [] by_owner = by_owner
index_listeners (obj ∷ objs) by_owner =
    index_listeners objs (push_all (λ l. l.owner) (listeners_of obj.k8s_object) by_owner)

unfoldable pub listeners_by_owner : LintContext → List (ObjectRef × List Listener)
unfolding index_listeners
listeners_by_owner ctx = index_listeners ctx.objects []

-- The listener that a sectionName names: the first of that name, or nothing.
abbrev pub named_listener : List Listener → String → List Listener
named_listener ls name = elim (find? (λ l. l.name == name) ls) [ none ↦ [] | some l ↦ l ∷ [] ]

abbrev pub select_section : List Listener → Option String → List Listener
select_section listeners none = listeners
select_section listeners (some name) = named_listener listeners name

unfoldable pub listeners_for : List (ObjectRef × List Listener) → Parent → List Listener
listeners_for by_owner parent = select_section (get (ref_of parent) by_owner) parent.section

-- gateway.go
unfoldable pub as_gateway : K8sObject → Option Gateway
as_gateway (gateway_v1 g) = some g
as_gateway (gateway_v1beta1 g) = some g
as_gateway _ = none

-- gatewayclass.go
abbrev pub class_name : K8sObject → Option String
class_name (gateway_class_v1 m) = some m.name
class_name (gateway_class_v1beta1 m) = some m.name
class_name _ = none

unfoldable pub gateway_classes : LintContext → List String
gateway_classes ctx = filter_map (λ obj. class_name obj.k8s_object) ctx.objects

-- gatewaylistener.go
pub record GatewayListener : Type 0 where
  pub name : String
  pub hostname : Option String
  pub port : ℤ
  pub protocol : String
  pub tls : Option ListenerTlsConfig

abbrev gateway_listener : ListenerEntry → GatewayListener
gateway_listener l = record {
  name = l.name;
  hostname = l.hostname;
  port = l.port;
  protocol = l.protocol;
  tls = l.tls;
}

unfoldable pub gateway_listeners_of : K8sObject → Option (List GatewayListener)
gateway_listeners_of (gateway_v1 gw) = some (map gateway_listener gw.listeners)
gateway_listeners_of (gateway_v1beta1 gw) = some (map gateway_listener gw.listeners)
gateway_listeners_of _ = none

abbrev mode_or_default : Option String → String
mode_or_default none = ObjectKinds.tls_terminate
mode_or_default (some mode) = if mode == "" then ObjectKinds.tls_terminate else mode

-- GatewayListener.TLSMode
unfoldable pub tls_mode : GatewayListener → String
tls_mode l = elim l.tls [ none ↦ ObjectKinds.tls_terminate | some tls ↦ mode_or_default tls.mode ]
