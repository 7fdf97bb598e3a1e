-- ===== src/Tests/Matches.antt =====
-- The keys of HTTP matches, and the routes that tie, at the samples.
use mathlib.Core.List.{Permᴰ}
use gwlint.Prelude.{
  String, none, some, List, [], ◌∷◌, false, ◌≡◌, ◌↔◌, inl, inr, refl, is_empty, Any, All, codes,
  codes_less, ◌==◌, if◌then◌else◌, Bool-cases, str_less, Diagnostic,
}
use gwlint.Prelude.Tests.{string_eq}
use gwlint.Prelude.Codes.{codes_eq}
use gwlint.Api.{ValueMatch}
use gwlint.GatewayApi.Route.{as_route, http_route}
use gwlint.GatewayApi.Parent.{listeners_by_owner, listeners_of, parents_of}
use gwlint.GatewayApi.Attach.{accepts_kind, accepts_namespace}
use gwlint.GatewayApi.RouteMatch.{
  HttpMatch, to_lower, canonical_http_match, http_matches_of, sorted_headers, sorted_params,
}
use gwlint.GatewayApi.RouteMatch.Canonical.{defaulted, match_key-Permᴰ, match_key-defaulted}
use gwlint.Checks.ConflictingRouteMatch.{
  Candidate, as_candidate, attachments_of, identical_match, check_func, judge, message,
  sorts_before, separated_by_age, conflict, shared_attachments, attach_parents, attaches,
  contested_hostnames, best_match,
}
use gwlint.Checks.ConflictingRouteMatch.OneSide.{one_side}
use gwlint.Checks.ConflictingRouteMatch.Ties.{Shared, identical_match_least}
use gwlint.Checks.ConflictingRouteMatch.Reported.{Tie, conflicting_match_iff}
use gwlint.Tests.Conflicts.{by_headers, web_route, second_object, conflicts}

abbrev turned : List ValueMatch
turned =
    record { type = none; name = "X-Env"; value = "test" }
    ∷ record { type = none; name = "X-Team"; value = "shop" }
    ∷ []

match_key-Permᴰ_example :
    (canonical_http_match by_headers).key
    ≡ (canonical_http_match (record by_headers { headers = turned; query_params = [] })).key
match_key-Permᴰ_example =
    match_key-Permᴰ by_headers {headers = turned} {params = []} (Permᴰ.swap refl refl) Permᴰ.nil

abbrev respell : String → String
respell name = if name == "X-Env" then "x-ENV" else name

respell_cased : (name : String) → to_lower (codes (respell name)) ≡ to_lower (codes name)
respell_cased name = elim (Bool-cases (name == "X-Env")) [
  | inl e ↦ let same = (string_eq.beq_iff name "X-Env").0 e in rw (same) refl
  | inr e ↦ rw e refl
]

match_key-defaulted_example :
    (canonical_http_match (defaulted respell by_headers)).key
    ≡ (canonical_http_match by_headers).key
match_key-defaulted_example = match_key-defaulted respell respell_cased by_headers

abbrev canonical : HttpMatch
canonical = record {
  key = codes "path=PathPrefix:/;method=GET;headers=Exact:x-env:test,Exact:x-team:shop";
  describe = (canonical_http_match by_headers).describe;
}

identical_match_least_example :
    Any (λ n. (n ≡ canonical) × Shared (canonical ∷ []) (canonical ∷ []) n) (canonical ∷ [])
    × All
        (λ n. Shared (canonical ∷ []) (canonical ∷ []) n → codes_less n.key canonical.key ≡ false)
        (canonical ∷ [])
unfolding identical_match
identical_match_least_example =
    identical_match_least (canonical ∷ []) (canonical ∷ []) canonical refl

abbrev candidate : String → Candidate
candidate name = record {
  id = record { kind = "HTTPRoute"; namespace = "shop"; name = name };
  route = http_route (web_route name);
  matches = canonical_http_match by_headers ∷ [];
  created = none;
}

conflicting_match_iff_example :
    (is_empty (check_func conflicts second_object) ≡ false)
    ↔ Any
        (λ obj.
          (other : Candidate) × (as_candidate obj ≡ some other)
          × Tie
              (candidate "b")
              other
              (attachments_of (candidate "b").route (listeners_by_owner conflicts))
              (listeners_by_owner conflicts))
        conflicts.objects
unfolding as_candidate as_route http_matches_of
conflicting_match_iff_example = conflicting_match_iff conflicts second_object (candidate "b") refl

abbrev tie : Diagnostic
tie =
    message (candidate "b") (candidate "a")
      (record {
        owner = record { kind = "Gateway"; namespace = "infra"; name = "crowded" };
        listener = "web";
      })
      "" (canonical_http_match by_headers)

one_side_example : judge (candidate "a") [] (listeners_by_owner conflicts) (candidate "b") ≡ none
unfolding judge sorts_before separated_by_age conflict shared_attachments attachments_of
    attach_parents attaches contested_hostnames identical_match best_match listeners_by_owner
    listeners_of parents_of accepts_kind accepts_namespace canonical_http_match str_less
    sorted_headers sorted_params
one_side_example =
    one_side (candidate "b") (candidate "a")
      (attachments_of (candidate "b").route (listeners_by_owner conflicts)) []
      (listeners_by_owner conflicts) tie refl
