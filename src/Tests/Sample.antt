-- ===== src/Tests/Sample.antt =====
-- A Gateway with one HTTP listener in the namespace infra, routes of the namespace shop, and what
-- they refer to.
use gwlint.Prelude.{String, Option, none, some, [], ◌∷◌, ◌≡◌, refl, ℕ}
use gwlint.ObjectKinds
use gwlint.Api.{
  pos, ObjectMeta, ParentReference, ApiBackendRef, HttpBackendRef, HttpRoute, ListenerEntry,
  Gateway, ReferenceGrant, BackendTrafficPolicy, K8sObject, Object, LintContext, gateway_v1,
  http_route_v1, service, reference_grant_v1beta1, backend_traffic_policy,
}
use gwlint.GatewayApi.Route.{Route, http_route, as_route}
use gwlint.GatewayApi.Parent.{Parent, ObjectRef, Listener}

abbrev pub meta : String → String → ObjectMeta
meta namespace name = record {
  name = name;
  namespace = namespace;
  labels = [];
  creation_timestamp = none;
}

abbrev pub object_of : K8sObject → Object
object_of obj = record { file_path = "all.yaml"; k8s_object = obj }

abbrev pub web_listener : ListenerEntry
web_listener = record {
  name = "web";
  hostname = some "*.example.com";
  port = pos 80;
  protocol = "HTTP";
  tls = none;
  allowed_routes = none;
}

abbrev pub edge : Gateway
edge = record {
  meta = meta "infra" "edge";
  gateway_class_name = "envoy";
  listeners = web_listener ∷ [];
}

abbrev parent_ref : String → Option String → ParentReference
parent_ref name section = record {
  group = none;
  kind = none;
  namespace = some "infra";
  name = name;
  section_name = section;
}

abbrev pub backend_ref : Option String → String → ApiBackendRef
backend_ref namespace name = record {
  group = none;
  kind = none;
  namespace = namespace;
  name = name;
  port = some (pos 80);
  weight = some (pos 0);
}

abbrev to_backend : ApiBackendRef → HttpBackendRef
to_backend ref = record { backend_ref = ref }

-- It attaches to a Gateway that is missing and to one that is present, and its only rule has the
-- weight 0 on both backendRefs.
abbrev pub shop : HttpRoute
shop = record {
  meta = meta "shop" "shop";
  parent_refs = parent_ref "gone" none ∷ parent_ref "edge" (some "admin") ∷ [];
  hostnames = "shop.example.org" ∷ [];
  rules =
      record {
        name = some "all";
        matches = [];
        filters = [];
        backend_refs =
            to_backend (backend_ref (some "data") "db")
            ∷ to_backend (backend_ref none "missing")
            ∷ [];
      }
      ∷ [];
}

abbrev pub grant : ReferenceGrant
grant = record {
  meta = meta "data" "to-others";
  spec = record {
    from =
        record { group = ObjectKinds.group_name; kind = "HTTPRoute"; namespace = "billing" } ∷ [];
    to = record { group = ""; kind = "Service"; name = none } ∷ [];
  };
}

abbrev pub policy : ℕ → String → BackendTrafficPolicy
policy address name = record {
  address = address;
  meta = meta "shop" name;
  target_ref = none;
  target_refs =
      record {
        group = ObjectKinds.group_name;
        kind = "HTTPRoute";
        name = "shop";
        section_name = none;
      }
      ∷ [];
  target_selectors = [];
  health_check = none;
  retry = none;
}

abbrev pub retries : BackendTrafficPolicy
retries = policy 1 "retries"

abbrev pub timeouts : BackendTrafficPolicy
timeouts = policy 2 "timeouts"

abbrev pub shop_object : Object
shop_object = object_of (http_route_v1 shop)

abbrev pub context : LintContext
context = record {
  objects =
      object_of (gateway_v1 edge)
      ∷ shop_object
      ∷ object_of (service (meta "shop" "web"))
      ∷ object_of (reference_grant_v1beta1 grant)
      ∷ object_of (backend_traffic_policy retries)
      ∷ object_of (backend_traffic_policy timeouts)
      ∷ [];
  invalid_objects = [];
}

abbrev pub shop_route : Route
shop_route = http_route shop

pub as_route-shop : as_route shop_object.k8s_object ≡ some shop_route
unfolding as_route
as_route-shop = refl

abbrev pub parent_to : String → Option String → Parent
parent_to name section = record {
  group = ObjectKinds.group_name;
  kind = ObjectKinds.gateway;
  namespace = "infra";
  name = name;
  section = section;
}

abbrev pub gone : ObjectRef
gone = record { kind = ObjectKinds.gateway; namespace = "infra"; name = "gone" }

abbrev pub listener : Listener
listener = record {
  owner = record { kind = ObjectKinds.gateway; namespace = "infra"; name = "edge" };
  name = "tcp";
  hostname = none;
  port = pos 5432;
  protocol = "TCP";
  allowed = some (record {
    namespaces = some (record { from = some "Same" });
    kinds = record { group = none; kind = "TCPRoute" } ∷ [];
  });
  owner_kind = ObjectKinds.gateway;
}

-- A Gateway whose listener terminates TLS with a Secret of its namespace.
abbrev pub secure : Gateway
secure = record {
  meta = meta "infra" "secure";
  gateway_class_name = "envoy";
  listeners =
      record {
        name = "tls";
        hostname = none;
        port = pos 443;
        protocol = "HTTPS";
        tls = some (record {
          mode = none;
          certificate_refs =
              record { group = none; kind = none; namespace = none; name = "cert" } ∷ [];
          options = [];
        });
        allowed_routes = none;
      }
      ∷ [];
}
