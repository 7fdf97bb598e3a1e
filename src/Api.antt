-- ===== src/Api.antt =====
-- The manifest types that the checks read: the Go structs of sigs.k8s.io/gateway-api, of Envoy
-- Gateway and of Kubernetes, which are not part of the repository. A record has the fields that the
-- checks use and no others; a Go pointer is an `Option`, a named string type is a `String`, and a
-- Go type that is served at two versions with the same fields is one record.
use gwlint.Prelude.{ℕ, String, Option, List, Bool}
pub use gwlint.Prelude.{ℤ, pos, negsuc}

-- metav1.ObjectMeta. `creation_timestamp` is none for the zero time, else its Unix seconds.
pub record ObjectMeta : Type 0 where
  pub name : String
  pub namespace : String
  pub labels : List (String × String)
  pub creation_timestamp : Option ℤ

pub record ParentReference : Type 0 where
  pub group : Option String
  pub kind : Option String
  pub namespace : Option String
  pub name : String
  pub section_name : Option String

-- gatewayv1.BackendRef, its embedded BackendObjectReference included.
pub record ApiBackendRef : Type 0 where
  pub group : Option String
  pub kind : Option String
  pub namespace : Option String
  pub name : String
  pub port : Option ℤ
  pub weight : Option ℤ

pub record HttpPathMatch : Type 0 where
  pub type : Option String
  pub value : Option String

-- An HTTPHeaderMatch or an HTTPQueryParamMatch.
pub record ValueMatch : Type 0 where
  pub type : Option String
  pub name : String
  pub value : String

pub record HttpRouteMatch : Type 0 where
  pub path : Option HttpPathMatch
  pub headers : List ValueMatch
  pub query_params : List ValueMatch
  pub method : Option String

pub record HttpBackendRef : Type 0 where
  pub backend_ref : ApiBackendRef

-- A filter, of which only the type is read.
pub record RouteFilter : Type 0 where
  pub type : String

pub record HttpRouteRule : Type 0 where
  pub name : Option String
  pub matches : List HttpRouteMatch
  pub filters : List RouteFilter
  pub backend_refs : List HttpBackendRef

pub record GrpcRouteRule : Type 0 where
  pub name : Option String
  pub filters : List RouteFilter
  pub backend_refs : List HttpBackendRef

-- The rule of a TCPRoute, a TLSRoute or a UDPRoute, at v1 and at v1alpha2.
pub record StreamRouteRule : Type 0 where
  pub name : Option String
  pub backend_refs : List ApiBackendRef

pub record HttpRoute : Type 0 where
  pub meta : ObjectMeta
  pub parent_refs : List ParentReference
  pub hostnames : List String
  pub rules : List HttpRouteRule

pub record GrpcRoute : Type 0 where
  pub meta : ObjectMeta
  pub parent_refs : List ParentReference
  pub hostnames : List String
  pub rules : List GrpcRouteRule

-- A TCPRoute or a UDPRoute, which have no hostnames.
pub record StreamRoute : Type 0 where
  pub meta : ObjectMeta
  pub parent_refs : List ParentReference
  pub rules : List StreamRouteRule

pub record TlsRoute : Type 0 where
  pub meta : ObjectMeta
  pub parent_refs : List ParentReference
  pub hostnames : List String
  pub rules : List StreamRouteRule

pub record RouteGroupKind : Type 0 where
  pub group : Option String
  pub kind : String

pub record RouteNamespaces : Type 0 where
  pub from : Option String

pub record AllowedRoutes : Type 0 where
  pub namespaces : Option RouteNamespaces
  pub kinds : List RouteGroupKind

pub record SecretObjectReference : Type 0 where
  pub group : Option String
  pub kind : Option String
  pub namespace : Option String
  pub name : String

pub record ListenerTlsConfig : Type 0 where
  pub mode : Option String
  pub certificate_refs : List SecretObjectReference
  pub options : List (String × String)

-- An entry of spec.listeners, of a Gateway or of a ListenerSet.
pub record ListenerEntry : Type 0 where
  pub name : String
  pub hostname : Option String
  pub port : ℤ
  pub protocol : String
  pub tls : Option ListenerTlsConfig
  pub allowed_routes : Option AllowedRoutes

pub record Gateway : Type 0 where
  pub meta : ObjectMeta
  pub gateway_class_name : String
  pub listeners : List ListenerEntry

pub record ParentGatewayReference : Type 0 where
  pub group : Option String
  pub kind : Option String
  pub namespace : Option String
  pub name : String

pub record ListenerSet : Type 0 where
  pub meta : ObjectMeta
  pub parent_ref : ParentGatewayReference
  pub listeners : List ListenerEntry

pub record ReferenceGrantFrom : Type 0 where
  pub group : String
  pub kind : String
  pub namespace : String

pub record ReferenceGrantTo : Type 0 where
  pub group : String
  pub kind : String
  pub name : Option String

pub record ReferenceGrantSpec : Type 0 where
  pub from : List ReferenceGrantFrom
  pub to : List ReferenceGrantTo

pub record ReferenceGrant : Type 0 where
  pub meta : ObjectMeta
  pub spec : ReferenceGrantSpec

-- LocalPolicyTargetReferenceWithSectionName
pub record PolicyTargetReference : Type 0 where
  pub group : String
  pub kind : String
  pub name : String
  pub section_name : Option String

pub record LabelSelectorRequirement : Type 0 where
  pub key : String
  pub operator : String
  pub values : List String

pub record TargetSelectorNamespaces : Type 0 where
  pub from : String

pub record TargetSelector : Type 0 where
  pub group : Option String
  pub kind : String
  pub match_labels : List (String × String)
  pub match_expressions : List LabelSelectorRequirement
  pub namespaces : Option TargetSelectorNamespaces

-- A duration of Envoy Gateway is its text.
pub record BackOffPolicy : Type 0 where
  pub base_interval : Option String
  pub max_interval : Option String

pub record PerRetryPolicy : Type 0 where
  pub timeout : Option String
  pub back_off : Option BackOffPolicy

pub record Retry : Type 0 where
  pub num_retries : Option ℤ
  pub per_retry : Option PerRetryPolicy

-- Only whether a health check is there is read.
pub record HealthCheck : Type 0 where
  pub active : Bool
  pub passive : Bool

pub record FqdnEndpoint : Type 0 where
  pub hostname : String
  pub port : ℤ

pub record IpEndpoint : Type 0 where
  pub address : String
  pub port : ℤ

pub record UnixSocket : Type 0 where
  pub path : String

pub record BackendEndpoint : Type 0 where
  pub fqdn : Option FqdnEndpoint
  pub ip : Option IpEndpoint
  pub unix : Option UnixSocket

-- egv1a1.Backend
pub record Backend : Type 0 where
  pub meta : ObjectMeta
  pub type : Option String
  pub endpoints : List BackendEndpoint

-- `address` is the pointer to the object, which is what `other == self` compares.
pub record BackendTrafficPolicy : Type 0 where
  pub address : ℕ
  pub meta : ObjectMeta
  pub target_ref : Option PolicyTargetReference
  pub target_refs : List PolicyTargetReference
  pub target_selectors : List TargetSelector
  pub health_check : Option HealthCheck
  pub retry : Option Retry

-- An object of a kind that the decoder has no type for. `secret_name` is the answer of
-- unstructured.NestedString for spec.secretName, none where it is missing or no string.
pub record Unstructured : Type 0 where
  pub meta : ObjectMeta
  pub group : String
  pub kind : String
  pub secret_name : Option String

-- The dynamic type of a k8sutil.Object, a constructor for each Go type that a check tells apart.
pub data K8sObject : Type 0 where
  gateway_v1 gateway_v1beta1 : Gateway → K8sObject
  listener_set_v1 : ListenerSet → K8sObject
  http_route_v1 http_route_v1beta1 : HttpRoute → K8sObject
  grpc_route_v1 grpc_route_v1alpha2 : GrpcRoute → K8sObject
  tcp_route_v1 tcp_route_v1alpha2 : StreamRoute → K8sObject
  tls_route_v1 tls_route_v1alpha3 tls_route_v1alpha2 : TlsRoute → K8sObject
  udp_route_v1 udp_route_v1alpha2 : StreamRoute → K8sObject
  gateway_class_v1 gateway_class_v1beta1 : ObjectMeta → K8sObject
  reference_grant_v1 reference_grant_v1beta1 reference_grant_v1alpha2 : ReferenceGrant → K8sObject
  service secret : ObjectMeta → K8sObject
  backend : Backend → K8sObject
  backend_traffic_policy : BackendTrafficPolicy → K8sObject
  unstructured : Unstructured → K8sObject
  other_object : ObjectMeta → K8sObject

-- GetName and GetNamespace read this.
abbrev pub meta_of : K8sObject → ObjectMeta
meta_of (gateway_v1 o) = o.meta
meta_of (gateway_v1beta1 o) = o.meta
meta_of (listener_set_v1 o) = o.meta
meta_of (http_route_v1 o) = o.meta
meta_of (http_route_v1beta1 o) = o.meta
meta_of (grpc_route_v1 o) = o.meta
meta_of (grpc_route_v1alpha2 o) = o.meta
meta_of (tcp_route_v1 o) = o.meta
meta_of (tcp_route_v1alpha2 o) = o.meta
meta_of (tls_route_v1 o) = o.meta
meta_of (tls_route_v1alpha3 o) = o.meta
meta_of (tls_route_v1alpha2 o) = o.meta
meta_of (udp_route_v1 o) = o.meta
meta_of (udp_route_v1alpha2 o) = o.meta
meta_of (gateway_class_v1 m) = m
meta_of (gateway_class_v1beta1 m) = m
meta_of (reference_grant_v1 o) = o.meta
meta_of (reference_grant_v1beta1 o) = o.meta
meta_of (reference_grant_v1alpha2 o) = o.meta
meta_of (service m) = m
meta_of (secret m) = m
meta_of (backend o) = o.meta
meta_of (backend_traffic_policy o) = o.meta
meta_of (unstructured o) = o.meta
meta_of (other_object m) = m

-- lintcontext.Object, InvalidObject and LintContext of kube-linter.
pub record Object : Type 0 where
  pub file_path : String
  pub k8s_object : K8sObject

pub record InvalidObject : Type 0 where
  pub file_path : String
  pub load_err : String

pub record LintContext : Type 0 where
  pub objects : List Object
  pub invalid_objects : List InvalidObject
