-- ===== src/Checks/DuplicateRuleName.antt =====
-- pkg/templates/duplicaterulename
pub mod Repeated
use gwlint.Prelude.{
  ℕ, zero, suc, ◌+◌, String, Option, none, some, List, [], ◌∷◌, ◌++◌, Bool, true, false, not, ◌==◌,
  ◌||◌, contains, if◌then◌else◌, Diagnostic, lit, quoted, dec, Counts, count_of, increment,
}
use gwlint.Prelude.Tests.{string_eq, ltb}
use gwlint.Api.{LintContext, Object}
use gwlint.GatewayApi.Route.{Route, as_route}
use gwlint.GatewayApi.Rules.{rule_names_of}

-- The body of the first loop.
abbrev pub count_name : Option String → Counts → Counts
count_name none counts = counts
count_name (some name) counts = if name == "" then counts else increment name counts

-- The first loop.
unfoldable pub count_names : List (Option String) → Counts → Counts
count_names [] counts = counts
count_names (name ∷ names) counts = count_names names (count_name name counts)

abbrev pub message : Route → ℕ → String → Diagnostic
message route count name = record {
  message =
      lit route.kind
      ∷ lit " "
      ∷ quoted route.name
      ∷ lit " has "
      ∷ dec count
      ∷ lit " rules named "
      ∷ quoted name
      ∷ lit
          "; a policy targetRef sectionName naming that rule cannot address one of them unambiguously"
      ∷ [];
}

-- The second loop yields the names that it reports, from those reported so far.
unfoldable pub repeated : Counts → List String → List (Option String) → List String
repeated counts reported [] = []
repeated counts reported (none ∷ names) = repeated counts reported names
repeated counts reported (some name ∷ names) =
    let skip = ltb (count_of name counts) 2 || contains reported name in
    let rest = repeated counts (if skip then reported else name ∷ reported) names in
    if skip then rest else name ∷ rest

abbrev messages : Route → Counts → List String → List Diagnostic
messages route counts [] = []
messages route counts (name ∷ names) =
    message route (count_of name counts) name ∷ messages route counts names

unfoldable pub check_func : LintContext → Object → List Diagnostic
check_func ctx object = elim (as_route object.k8s_object) [
  | none ↦ []
  | some route ↦
      let names = rule_names_of object.k8s_object in
      let counts = count_names names [] in messages route counts (repeated counts [] names)
]
