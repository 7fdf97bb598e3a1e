-- ===== src/GatewayApi/RouteMatch.antt =====
-- pkg/gatewayapi/routematch.go. A key is the code points of the text that the source builds, which
-- are as equal and as ordered as the texts. strings.ToLower is modelled on the letters of ASCII,
-- which are all that the name of a header may hold.
pub mod Canonical
use gwlint.Prelude.{
  ℕ, ◌+◌, String, Option, none, some, List, [], ◌∷◌, ◌++◌, Bool, true, false, ◌&&◌, ◌==◌, map,
  flat_map, or_else, is_empty, length, codes, codes_less, sort, if◌then◌else◌, Text, lit, quoted,
  dec,
}
use gwlint.Prelude.Tests.{ltb, nat_eq}
use gwlint.Api.{
  ValueMatch, HttpPathMatch, HttpRouteMatch, HttpRouteRule, K8sObject, http_route_v1,
  http_route_v1beta1,
}

pub record HttpMatch : Type 0 where
  pub key : List ℕ
  pub describe : Text

-- gatewayv1.PathMatchPathPrefix, and gatewayv1.HeaderMatchExact and gatewayv1.QueryParamMatchExact
abbrev path_prefix : String
path_prefix = "PathPrefix"

abbrev pub exact : String
exact = "Exact"

abbrev pub path_type : Option HttpPathMatch → String
path_type none = path_prefix
path_type (some path) = or_else path.type path_prefix

abbrev pub path_value : Option HttpPathMatch → String
path_value none = "/"
path_value (some path) = or_else path.value "/"

abbrev pub lower : ℕ → ℕ
lower c = if ltb b'@' c && ltb c b'[' then c + 32 else c

abbrev pub to_lower : List ℕ → List ℕ
to_lower s = map lower s

-- `%s:%s:%s` of the type, the name and the value.
abbrev pub header_entry : ValueMatch → List ℕ
header_entry h =
    codes (or_else h.type exact) ++ b':' ∷ (to_lower (codes h.name) ++ b':' ∷ codes h.value)

abbrev pub param_entry : ValueMatch → List ℕ
param_entry q = codes (or_else q.type exact) ++ b':' ∷ (codes q.name ++ b':' ∷ codes q.value)

-- strings.Join
abbrev pub join_codes : ℕ → List (List ℕ) → List ℕ
join_codes sep [] = []
join_codes sep (s ∷ []) = s
join_codes sep (s ∷ t ∷ ss) = s ++ sep ∷ join_codes sep (t ∷ ss)

abbrev pub path_part : Option HttpPathMatch → List ℕ
path_part path = codes "path=" ++ (codes (path_type path) ++ b':' ∷ codes (path_value path))

abbrev method_parts : Option String → List (List ℕ)
method_parts none = []
method_parts (some method) = (codes "method=" ++ codes method) ∷ []

-- The part for the entries, if there are any.
abbrev entry_parts : String → List (List ℕ) → List (List ℕ)
entry_parts label [] = []
entry_parts label (s ∷ ss) = (codes label ++ join_codes b',' (s ∷ ss)) ∷ []

unfoldable pub sorted_headers : List ValueMatch → List (List ℕ)
sorted_headers headers = sort codes_less (map header_entry headers)

unfoldable pub sorted_params : List ValueMatch → List (List ℕ)
sorted_params params = sort codes_less (map param_entry params)

unfoldable pub match_key : HttpRouteMatch → List ℕ
match_key m = join_codes b';' (
    path_part m.path
    ∷ (method_parts m.method
        ++ (entry_parts "headers=" (sorted_headers m.headers)
            ++ entry_parts "query=" (sorted_params m.query_params))))

abbrev match_noun : ℕ → String
match_noun n = if n == 1 then "match" else "matches"

abbrev describe_method : Option String → Text
describe_method none = []
describe_method (some method) = lit " and method " ∷ lit method ∷ []

abbrev describe_entries : String → List ValueMatch → Text
describe_entries label [] = []
describe_entries label (h ∷ hs) =
    lit " and " ∷ dec (length (h ∷ hs)) ∷ lit label ∷ lit (match_noun (length (h ∷ hs))) ∷ []

unfoldable pub describe_match : HttpRouteMatch → Text
describe_match m =
    lit (path_type m.path)
    ∷ lit " "
    ∷ quoted (path_value m.path)
    ∷ (describe_method m.method
        ++ (describe_entries " header " m.headers
            ++ describe_entries " query parameter " m.query_params))

unfoldable pub canonical_http_match : HttpRouteMatch → HttpMatch
unfolding match_key describe_match
canonical_http_match m = record { key = match_key m; describe = describe_match m }

-- gatewayv1.HTTPRouteMatch{}
abbrev empty_match : HttpRouteMatch
empty_match = record { path = none; headers = []; query_params = []; method = none }

-- A rule with no matches has the one that matches every request.
abbrev pub matches_or_any : List HttpRouteMatch → List HttpRouteMatch
matches_or_any [] = empty_match ∷ []
matches_or_any (m ∷ ms) = m ∷ ms

abbrev pub matches_of_rules : List HttpRouteRule → List HttpMatch
matches_of_rules rules =
    flat_map (λ rule. map canonical_http_match (matches_or_any rule.matches)) rules

unfoldable pub http_matches_of : K8sObject → Option (List HttpMatch)
unfolding canonical_http_match
http_matches_of (http_route_v1 route) = some (matches_of_rules route.rules)
http_matches_of (http_route_v1beta1 route) = some (matches_of_rules route.rules)
http_matches_of _ = none
