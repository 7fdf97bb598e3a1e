-- ===== src/Checks/ConflictingRouteMatch/OneSide.antt =====
-- Of two routes that tie, conflicting-route-match reports one.
use gwlint.Prelude.{none, some, List, true, false, ◌≡◌, arith, str_less-asym, Diagnostic}
use gwlint.Prelude.Tests.{string_eq}
use gwlint.GatewayApi.Parent.{ObjectRef, ref_eq, Listener}
use gwlint.Checks.ConflictingRouteMatch.{Candidate, Attachment, sorts_before, judge}

pub sorts_before-asym : (a b : ObjectRef) → sorts_before a b ≡ true → sorts_before b a ≡ false
unfolding sorts_before
sorts_before-asym a b h = ground (
  arith,
  string_eq.beq_iff a.namespace b.namespace,
  string_eq.beq_iff b.namespace a.namespace,
  str_less-asym a.namespace b.namespace,
  str_less-asym a.name b.name,
)

-- The route that the finding is for comes after the other one.
judge_order :
    (self other : Candidate) (mine : List (Attachment × Listener))
    → (by_owner : List (ObjectRef × List Listener)) (d : Diagnostic)
    → judge self mine by_owner other ≡ some d
    → sorts_before other.id self.id ≡ true
unfolding judge
judge_order self other mine by_owner d h = ground arith

-- Of two routes, conflicting-route-match reports the tie on one side at most: where it reports it of
-- the first against the second, it reports nothing of the second against the first, whatever
-- listeners the two attach through.
pub one_side :
    (self other : Candidate) (mine theirs : List (Attachment × Listener))
    → (by_owner : List (ObjectRef × List Listener)) (d : Diagnostic)
    → judge self mine by_owner other ≡ some d
    → judge other theirs by_owner self ≡ none
unfolding judge
one_side self other mine theirs by_owner d h =
    let later = sorts_before-asym other.id self.id (judge_order self other mine by_owner d h) in
    ground arith
