-- ===== src/Checks/ListenerNotFound.antt =====
-- pkg/templates/listenernotfound
pub mod Missing
use gwlint.Prelude.{
  String, Option, none, some, List, [], ◌∷◌, ◌++◌, Bool, true, false, not, ◌==◌, any, map,
  filter_map, if◌then◌else◌, Diagnostic, Text, lit, quoted, join, lookup, sort,
}
use gwlint.Prelude.Tests.{string_eq}
use gwlint.Prelude.Quoting.{quoted_less}
use gwlint.Api.{LintContext, Object}
use gwlint.ObjectKinds
use gwlint.GatewayApi.Route.{Route, as_route}
use gwlint.GatewayApi.Parent.{
  Parent, ObjectRef, Listener, ref_eq, ref_of, parents_of, listeners_by_owner,
}

unfoldable pub has_listener : List Listener → String → Bool
has_listener listeners name = any (λ l. l.name == name) listeners

-- All names but the last joined by commas, then the last.
abbrev pub enumerate : List String → Text
enumerate [] = []
enumerate (a ∷ []) = quoted a ∷ []
enumerate (a ∷ b ∷ []) = quoted a ∷ lit " and " ∷ quoted b ∷ []
enumerate (a ∷ b ∷ c ∷ names) = quoted a ∷ lit ", " ∷ enumerate (b ∷ c ∷ names)

abbrev describe_names : List String → Text
describe_names [] = lit "no listeners" ∷ []
describe_names (name ∷ []) = lit "only " ∷ quoted name ∷ []
describe_names (a ∷ b ∷ names) = enumerate (a ∷ b ∷ names)

unfoldable pub describe : List Listener → Text
unfolding quoted_less
describe listeners = describe_names (sort quoted_less (map (λ l. l.name) listeners))

abbrev pub message : Route → Parent → String → List Listener → Diagnostic
message route parent section listeners = record {
  message =
      lit route.kind
      ∷ lit " "
      ∷ quoted route.name
      ∷ lit " attaches to listener "
      ∷ quoted section
      ∷ lit " on "
      ∷ lit parent.kind
      ∷ lit " "
      ∷ quoted parent.name
      ∷ lit ", which declares no such listener (it has "
      ∷ (describe listeners
          ++ lit "); the route is not accepted onto that parent and its traffic is not served"
            ∷ []);
}

abbrev judge_section : Route → Parent → String → List Listener → Option Diagnostic
judge_section route parent section listeners =
    if has_listener listeners section then none else some (message route parent section listeners)

abbrev judge_own :
    List (ObjectRef × List Listener) → Route → Parent → Option String → Option Diagnostic
judge_own by_owner route parent none = none
judge_own by_owner route parent (some section) = elim (lookup (ref_of parent) by_owner) [
  | none ↦ none
  | some listeners ↦ judge_section route parent section listeners
]

unfoldable pub judge : List (ObjectRef × List Listener) → Route → Parent → Option Diagnostic
judge by_owner route parent =
    if not (parent.group == ObjectKinds.group_name)
    then none
    else judge_own by_owner route parent parent.section

unfoldable pub check_func : LintContext → Object → List Diagnostic
check_func ctx object = elim (as_route object.k8s_object) [
  | none ↦ []
  | some route ↦ filter_map (judge (listeners_by_owner ctx) route) (parents_of route)
]
