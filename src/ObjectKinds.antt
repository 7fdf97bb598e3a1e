-- ===== src/ObjectKinds.antt =====
-- pkg/objectkinds: the kinds of object that gwlint knows, and the words of the Gateway API that the
-- source takes from other packages, spelled as the manifests under examples/ spell them.
use gwlint.Prelude.{String, List, [], ◌∷◌}

abbrev pub gateway : String
gateway = "Gateway"

abbrev pub listener_set : String
listener_set = "ListenerSet"

abbrev pub http_route : String
http_route = "HTTPRoute"

abbrev pub grpc_route : String
grpc_route = "GRPCRoute"

abbrev pub tcp_route : String
tcp_route = "TCPRoute"

abbrev pub tls_route : String
tls_route = "TLSRoute"

abbrev pub udp_route : String
udp_route = "UDPRoute"

abbrev pub route_kinds : List String
route_kinds = http_route ∷ grpc_route ∷ tcp_route ∷ tls_route ∷ udp_route ∷ []

-- gatewayv1.GroupName
abbrev pub group_name : String
group_name = "gateway.networking.k8s.io"

-- egv1a1.GroupName and egv1a1.KindBackend
abbrev pub envoy_group_name : String
envoy_group_name = "gateway.envoyproxy.io"

abbrev pub kind_backend : String
kind_backend = "Backend"

-- The values of gatewayv1.ProtocolType.
abbrev pub http_protocol : String
http_protocol = "HTTP"

abbrev pub https_protocol : String
https_protocol = "HTTPS"

abbrev pub tls_protocol : String
tls_protocol = "TLS"

abbrev pub tcp_protocol : String
tcp_protocol = "TCP"

abbrev pub udp_protocol : String
udp_protocol = "UDP"

-- The values of gatewayv1.FromNamespaces, and of egv1a1.TargetSelectorNamespaces.From.
abbrev pub from_all : String
from_all = "All"

abbrev pub from_same : String
from_same = "Same"

abbrev pub from_selector : String
from_selector = "Selector"

-- gatewayv1.TLSModeTerminate
abbrev pub tls_terminate : String
tls_terminate = "Terminate"

-- egv1a1.BackendTypeEndpoints and egv1a1.BackendTypeDynamicResolver
abbrev pub type_endpoints : String
type_endpoints = "Endpoints"

abbrev pub type_dynamic_resolver : String
type_dynamic_resolver = "DynamicResolver"

-- gatewayv1.HTTPRouteFilterRequestRedirect and gatewayv1.HTTPRouteFilterExtensionRef
abbrev pub filter_request_redirect : String
filter_request_redirect = "RequestRedirect"

abbrev pub filter_extension_ref : String
filter_extension_ref = "ExtensionRef"
