-- ===== src/Checks/DuplicateListenerName.antt =====
-- pkg/templates/duplicatelistenername
pub mod Repeated
use gwlint.Prelude.{
  ℕ, suc, String, Option, none, some, List, [], ◌∷◌, Bool, not, ◌==◌, map, filter, length, consider,
  if◌then◌else◌, Diagnostic, lit, quoted, dec, Counts, count_of, increment, sort_strings,
}
use gwlint.Prelude.Tests.{ltb}
use gwlint.Api.{LintContext, Object}
use gwlint.GatewayApi.Parent.{Listener, listeners_of}

-- The loop that counts, from the counts so far.
unfoldable pub count_listeners : List Listener → Counts → Counts
count_listeners [] counts = counts
count_listeners (l ∷ ls) counts = count_listeners ls (increment l.name counts)

-- The names of the map with more than one listener, in order.
unfoldable pub duplicated : Counts → List String
duplicated counts = sort_strings (map (λ c. c.0) (filter (λ c. ltb 1 c.1) counts))

abbrev pub message : Listener → Counts → String → Diagnostic
message owner counts name = record {
  message =
      lit owner.owner_kind
      ∷ lit " "
      ∷ quoted owner.owner.name
      ∷ lit " declares "
      ∷ dec (count_of name counts)
      ∷ lit " listeners named "
      ∷ quoted name
      ∷ lit "; a listener name must be unique within a "
      ∷ lit owner.owner_kind
      ∷ lit
          ", so the API server rejects the object and a route sectionName naming that listener has no single listener to attach to"
      ∷ [];
}

unfoldable pub judge : Listener → Counts → List Diagnostic
unfolding duplicated
judge owner counts = map (message owner counts) (duplicated counts)

-- `listeners[0]` is the owner; below two listeners there is nothing to compare.
abbrev pub judge_listeners : List Listener → List Diagnostic
judge_listeners [] = []
judge_listeners (l ∷ []) = []
judge_listeners (l ∷ m ∷ ls) = judge l (count_listeners (l ∷ m ∷ ls) [])

unfoldable pub check_func : LintContext → Object → List Diagnostic
check_func ctx object = judge_listeners (listeners_of object.k8s_object)
