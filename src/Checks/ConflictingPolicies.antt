-- ===== src/Checks/ConflictingPolicies.antt =====
-- pkg/templates/conflictingpolicies
pub mod Reporter
pub mod Least
use gwlint.Prelude.{
  String, Option, none, some, List, [], ◌∷◌, ◌++◌, Bool, true, false, not, ◌==◌, ◌&&◌, ◌||◌, Eq,
  ◌≡◌, ◌↔◌, arith, or_else, any, all, map, filter_map, is_empty, contains, if◌then◌else◌, str_less,
  sort_strings, Diagnostic, Text, lit, quoted,
}
use gwlint.Prelude.Tests.{string_eq, nat_eq}
use gwlint.Api.{
  LintContext, Object, K8sObject, BackendTrafficPolicy, PolicyTargetReference,
  backend_traffic_policy,
}
use gwlint.ObjectKinds
use gwlint.GatewayApi.PolicyCoverage.{to_list}

pub record Target : Type 0 where
  pub group : String
  pub kind : String
  pub namespace : String
  pub name : String
  pub section : String

abbrev pub target_beq : Target → Target → Bool
target_beq a b =
    a.group == b.group
    && (a.kind == b.kind
        && (a.namespace == b.namespace && (a.name == b.name && a.section == b.section)))

pub target_beq_iff : (a b : Target) → (target_beq a b ≡ true) ↔ (a ≡ b)
target_beq_iff a b = ground (
  arith,
  string_eq.beq_iff a.group b.group,
  string_eq.beq_iff a.kind b.kind,
  string_eq.beq_iff a.namespace b.namespace,
  string_eq.beq_iff a.name b.name,
  string_eq.beq_iff a.section b.section,
)

instance abbrev pub target_eq : Eq Target
target_eq = record { beq = target_beq; beq_iff = target_beq_iff }

abbrev pub target_of : BackendTrafficPolicy → PolicyTargetReference → Target
target_of policy ref = record {
  group = ref.group;
  kind = ref.kind;
  namespace = policy.meta.namespace;
  name = ref.name;
  section = or_else ref.section_name "";
}

-- The references of the policy, the singular one first.
abbrev pub refs_of : BackendTrafficPolicy → List PolicyTargetReference
refs_of policy = to_list policy.target_ref ++ policy.target_refs

-- The loop that keeps the first of each slot; what is seen is what is in `targets`.
unfoldable pub add_distinct : List Target → List Target → List Target
add_distinct targets [] = targets
add_distinct targets (t ∷ ts) =
    add_distinct (if contains targets t then targets else targets ++ t ∷ []) ts

unfoldable pub targets_of : BackendTrafficPolicy → List Target
unfolding add_distinct
targets_of policy = add_distinct [] (map (target_of policy) (refs_of policy))

-- The body of the loop over the objects: the name of another policy that claims the slot.
abbrev pub rival : BackendTrafficPolicy → Target → K8sObject → Option String
rival self t (backend_traffic_policy other) =
    if other.address == self.address
    then none
    else if contains (targets_of other) t
    then some other.meta.name
    else none
rival self t _ = none

unfoldable pub other_policies_targeting : LintContext → BackendTrafficPolicy → Target → List String
unfolding sort_strings targets_of
other_policies_targeting ctx self t =
    sort_strings (filter_map (λ obj. rival self t obj.k8s_object) ctx.objects)

unfoldable pub is_first_by_name : String → List String → Bool
unfolding str_less
is_first_by_name name rivals = all (λ rival. not (str_less rival name)) rivals

-- All names but the last joined by commas, and then the last.
abbrev pub describe_policies : List String → Text
describe_policies [] = []
describe_policies (n ∷ []) = lit "BackendTrafficPolicy " ∷ quoted n ∷ []
describe_policies (n ∷ m ∷ []) =
    lit "BackendTrafficPolicy " ∷ quoted n ∷ lit " and BackendTrafficPolicy " ∷ quoted m ∷ []
describe_policies (n ∷ m ∷ k ∷ names) =
    lit "BackendTrafficPolicy " ∷ quoted n ∷ lit ", " ∷ describe_policies (m ∷ k ∷ names)

abbrev slot_word : Target → String
slot_word t =
    if t.kind == ObjectKinds.gateway || t.kind == ObjectKinds.listener_set
    then "listener"
    else "rule"

abbrev pub describe_target : Target → Text
describe_target t =
    if t.section == ""
    then lit t.kind ∷ lit " " ∷ quoted t.name ∷ []
    else lit (slot_word t)
      ∷ lit " "
      ∷ quoted t.section
      ∷ lit " of "
      ∷ lit t.kind
      ∷ lit " "
      ∷ quoted t.name
      ∷ []

abbrev pub message : List String → Target → Diagnostic
message rivals t = record {
  message =
      lit "BackendTrafficPolicy and "
      ∷ (describe_policies rivals
          ++ (lit " both target "
              ∷ (describe_target t
                  ++ lit
                      "; Envoy Gateway attaches only one BackendTrafficPolicy per target and rejects the rest as Conflicted, so all but one are silently ignored, and which one wins depends on creation timestamps that the manifests do not carry"
                    ∷ [])));
}

abbrev judge_rivals : BackendTrafficPolicy → Target → List String → Option Diagnostic
judge_rivals policy t rivals =
    if is_empty rivals
    then none
    else if not (is_first_by_name policy.meta.name rivals)
    then none
    else some (message rivals t)

-- The body of the loop over the slots.
unfoldable pub judge : LintContext → BackendTrafficPolicy → Target → Option Diagnostic
judge ctx policy t = judge_rivals policy t (other_policies_targeting ctx policy t)

abbrev pub judge_object : LintContext → K8sObject → List Diagnostic
judge_object ctx (backend_traffic_policy policy) = filter_map (judge ctx policy) (targets_of policy)
judge_object ctx _ = []

unfoldable pub check_func : LintContext → Object → List Diagnostic
check_func ctx object = judge_object ctx object.k8s_object
