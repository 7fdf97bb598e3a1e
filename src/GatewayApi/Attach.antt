-- ===== src/GatewayApi/Attach.antt =====
-- pkg/gatewayapi/attach.go, the admission half: the kinds and the namespaces that a listener takes.
pub mod Admission
pub mod Kinds
use gwlint.Prelude.{
  String, Option, none, some, List, [], ◌∷◌, Bool, true, false, not, ◌==◌, is_empty, filter_map,
  contains, or_else, if◌then◌else◌, ◌||◌,
}
use gwlint.Prelude.Tests.{string_eq}
use gwlint.Api.{AllowedRoutes, RouteGroupKind, RouteNamespaces}
use gwlint.ObjectKinds
use gwlint.GatewayApi.Parent.{Listener}

-- A nil slice is the empty list; no listener accepts an empty one that is not nil.
unfoldable pub route_kinds_for : String → List String
route_kinds_for protocol =
    if protocol == ObjectKinds.http_protocol || protocol == ObjectKinds.https_protocol
    then ObjectKinds.http_route ∷ ObjectKinds.grpc_route ∷ []
    else if protocol == ObjectKinds.tls_protocol
    then ObjectKinds.tls_route ∷ []
    else if protocol == ObjectKinds.tcp_protocol
    then ObjectKinds.tcp_route ∷ []
    else if protocol == ObjectKinds.udp_protocol
    then ObjectKinds.udp_route ∷ []
    else []

abbrev pub explicit_kinds : Option AllowedRoutes → List RouteGroupKind
explicit_kinds none = []
explicit_kinds (some allowed) = allowed.kinds

unfoldable pub has_explicit_kinds : Listener → Bool
has_explicit_kinds l = not (is_empty (explicit_kinds l.allowed))

abbrev pub is_foreign : Option String → Bool
is_foreign none = false
is_foreign (some group) = not (group == ObjectKinds.group_name)

-- The body of the loop over allowedRoutes.kinds.
abbrev pub own_kind : RouteGroupKind → Option String
own_kind k = if is_foreign k.group then none else some k.kind

unfoldable pub accepted_kinds : Listener → List String
unfolding has_explicit_kinds route_kinds_for
accepted_kinds l =
    if has_explicit_kinds l
    then filter_map own_kind (explicit_kinds l.allowed)
    else route_kinds_for l.protocol

unfoldable pub accepts_kind : Listener → String → Bool × List String
unfolding accepted_kinds
accepts_kind l kind =
    if is_empty (accepted_kinds l)
    then (true, [])
    else (contains (accepted_kinds l) kind, accepted_kinds l)

-- allowedRoutes.namespaces.from, none where any part of it is nil.
abbrev from_of : Option AllowedRoutes → Option String
from_of none = none
from_of (some allowed) = elim allowed.namespaces [ none ↦ none | some ns ↦ ns.from ]

abbrev admits_from : Option String → String → String → Bool
admits_from none own route_namespace = route_namespace == own
admits_from (some from) own route_namespace =
    if from == ObjectKinds.from_all
    then true
    else if from == ObjectKinds.from_selector
    then true
    else if from == ObjectKinds.from_same
    then route_namespace == own
    else true

unfoldable pub accepts_namespace : Listener → String → Bool
accepts_namespace l route_namespace =
    admits_from (from_of l.allowed) l.owner.namespace route_namespace

unfoldable pub namespace_policy : Listener → String
namespace_policy l = or_else (from_of l.allowed) ObjectKinds.from_same
