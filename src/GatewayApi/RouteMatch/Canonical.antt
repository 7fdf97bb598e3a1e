-- ===== src/GatewayApi/RouteMatch/Canonical.antt =====
-- What the key of an HTTP match does not depend on.
use mathlib.Core.List.{Permᴰ}
use gwlint.Prelude.{
  String, some, or_else, List, [], ◌∷◌, map, codes, codes_less, sort, ◌≡◌, refl, ap,
}
use gwlint.Prelude.Ordering.{codes_less-Total}
use gwlint.Prelude.Sorting.Laws.{sort-Permᴰ, Permᴰ-map}
use gwlint.Api.{ValueMatch, HttpRouteMatch}
use gwlint.GatewayApi.RouteMatch.{
  exact, path_type, path_value, to_lower, header_entry, param_entry, sorted_headers, sorted_params,
  match_key, canonical_http_match,
}

sorted_headers-Permᴰ :
    {hs ks : List ValueMatch} → Permᴰ hs ks → sorted_headers hs ≡ sorted_headers ks
unfolding sorted_headers
sorted_headers-Permᴰ d = sort-Permᴰ codes_less codes_less-Total (Permᴰ-map header_entry d)

sorted_params-Permᴰ : {hs ks : List ValueMatch} → Permᴰ hs ks → sorted_params hs ≡ sorted_params ks
unfolding sorted_params
sorted_params-Permᴰ d = sort-Permᴰ codes_less codes_less-Total (Permᴰ-map param_entry d)

-- Two matches whose headers, and whose query parameters, are rearrangements of one another, and
-- which agree on the path and the method, have one key.
pub match_key-Permᴰ :
    (m : HttpRouteMatch) {headers params : List ValueMatch}
    → Permᴰ m.headers headers
    → Permᴰ m.query_params params
    → (canonical_http_match m).key
      ≡ (canonical_http_match (record m { headers = headers; query_params = params })).key
unfolding canonical_http_match match_key
match_key-Permᴰ m h q =
    let same_headers = sorted_headers-Permᴰ h in
    let same_params = sorted_params-Permᴰ q in rw (same_headers, same_params) refl

-- The API server's defaults, written out, with the name of each header spelt another way.
abbrev pub defaulted_value : (String → String) → ValueMatch → ValueMatch
defaulted_value spell h = record {
  type = some (or_else h.type exact);
  name = spell h.name;
  value = h.value;
}

abbrev pub defaulted : (String → String) → HttpRouteMatch → HttpRouteMatch
defaulted spell m = record m {
  path = some (record { type = some (path_type m.path); value = some (path_value m.path) });
  headers = map (defaulted_value spell) m.headers;
  query_params = map (defaulted_value (λ name. name)) m.query_params;
}

map_eq {ℓ κ} :
    {A : Type ℓ} {B : Type κ} (f g : A → B) (k : A → A) (xs : List A)
    → ((x : A) → f (k x) ≡ g x)
    → map f (map k xs) ≡ map g xs
map_eq f g k [] h = refl
map_eq f g k (x ∷ xs) h = let rest = map_eq f g k xs h in let here = h x in cc

header_entry-defaulted :
    (spell : String → String)
    → ((name : String) → to_lower (codes (spell name)) ≡ to_lower (codes name))
    → (h : ValueMatch) → header_entry (defaulted_value spell h) ≡ header_entry h
header_entry-defaulted spell cased h = let e = cased h.name in rw e refl

sorted_headers-defaulted :
    (spell : String → String)
    → ((name : String) → to_lower (codes (spell name)) ≡ to_lower (codes name))
    → (hs : List ValueMatch) → sorted_headers (map (defaulted_value spell) hs) ≡ sorted_headers hs
unfolding sorted_headers
sorted_headers-defaulted spell cased hs = ap (sort codes_less) (
    map_eq header_entry header_entry (defaulted_value spell) hs
      (header_entry-defaulted spell cased))

sorted_params-defaulted :
    (qs : List ValueMatch) → sorted_params (map (defaulted_value (λ n. n)) qs) ≡ sorted_params qs
unfolding sorted_params
sorted_params-defaulted qs =
    ap (sort codes_less) (map_eq param_entry param_entry (defaulted_value (λ n. n)) qs (λ q. refl))

-- A match has the key that it has with the defaults written out, where a path, its type and its
-- value, and the type of a header or of a query parameter, may be missing, and with the names of
-- its headers spelt in other cases.
pub match_key-defaulted :
    (spell : String → String)
    → ((name : String) → to_lower (codes (spell name)) ≡ to_lower (codes name))
    → (m : HttpRouteMatch)
    → (canonical_http_match (defaulted spell m)).key ≡ (canonical_http_match m).key
unfolding canonical_http_match match_key
match_key-defaulted spell cased m =
    let same_headers = sorted_headers-defaulted spell cased m.headers in
    let same_params = sorted_params-defaulted m.query_params in rw (same_headers, same_params) refl
