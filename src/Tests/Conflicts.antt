-- ===== src/Tests/Conflicts.antt =====
-- A Gateway whose listeners are in each other's way, and two routes that match the same requests.
use gwlint.Prelude.{String, none, some, [], ◌∷◌}
use gwlint.Prelude.Tests.{string_eq}
use gwlint.Api.{
  pos, ValueMatch, HttpRouteMatch, HttpRoute, ListenerEntry, Gateway, ListenerSet, Object,
  LintContext, gateway_v1, listener_set_v1, http_route_v1,
}
use gwlint.Tests.Sample.{meta, object_of}

abbrev entry : String → String → ListenerEntry
entry name protocol = record {
  name = name;
  hostname = none;
  port = pos 80;
  protocol = protocol;
  tls = none;
  allowed_routes = some (record { namespaces = some (record { from = some "All" }); kinds = [] });
}

abbrev pub crowded : Gateway
crowded = record {
  meta = meta "infra" "crowded";
  gateway_class_name = "envoy";
  listeners = entry "web" "HTTP" ∷ entry "web" "HTTPS" ∷ [];
}

abbrev pub orphan : ListenerSet
orphan = record {
  meta = meta "infra" "orphan";
  parent_ref = record { group = none; kind = none; namespace = none; name = "gone" };
  listeners = [];
}

abbrev value : String → String → ValueMatch
value name text = record { type = none; name = name; value = text }

abbrev pub by_headers : HttpRouteMatch
by_headers = record {
  path = none;
  headers = value "X-Team" "shop" ∷ value "X-Env" "test" ∷ [];
  query_params = [];
  method = some "GET";
}

abbrev pub web_route : String → HttpRoute
web_route name = record {
  meta = meta "shop" name;
  parent_refs =
      record {
        group = none;
        kind = none;
        namespace = some "infra";
        name = "crowded";
        section_name = some "web";
      }
      ∷ [];
  hostnames = [];
  rules = record { name = none; matches = by_headers ∷ []; filters = []; backend_refs = [] } ∷ [];
}

abbrev pub gateway_object : Object
gateway_object = object_of (gateway_v1 crowded)

abbrev pub set_object : Object
set_object = object_of (listener_set_v1 orphan)

abbrev pub first_object : Object
first_object = object_of (http_route_v1 (web_route "a"))

abbrev pub second_object : Object
second_object = object_of (http_route_v1 (web_route "b"))

abbrev pub conflicts : LintContext
conflicts = record {
  objects = gateway_object ∷ set_object ∷ first_object ∷ second_object ∷ [];
  invalid_objects = [];
}
