-- ===== src/Checks/ConflictingRouteMatch.antt =====
-- pkg/templates/conflictingroutematch
pub mod OneSide
pub mod Ties
pub mod Meeting
pub mod Reported
use gwlint.Prelude.{
  ℕ, String, Option, none, some, List, [], ◌∷◌, ◌++◌, Bool, true, false, not, ◌==◌, ◌&&◌, ◌||◌, Eq,
  ◌≡◌, ◌↔◌, arith, map, filter, filter_map, flat_map, find?, contains, is_empty, get, value_of, put,
  if◌then◌else◌, str_less, codes_less, sort, sort_strings, Diagnostic, Text, lit, quoted, ℤ, int_eq,
}
use gwlint.Prelude.Tests.{string_eq, nat_eq}
use gwlint.Api.{ObjectMeta, LintContext, Object, meta_of}
use gwlint.ObjectKinds
use gwlint.GatewayApi.Route.{Route, as_route}
use gwlint.GatewayApi.Parent.{
  Parent, ObjectRef, ref_eq, ref_of, parents_of, Listener, listeners_by_owner,
}
use gwlint.GatewayApi.Attach.{accepts_kind, accepts_namespace}
use gwlint.GatewayApi.Hostnames.{hostnames_intersect}
use gwlint.GatewayApi.RouteMatch.{HttpMatch, http_matches_of}
use gwlint.Prelude.Codes.{codes_eq}

-- `created` is createdAt, none where hasCreated is false.
pub record Candidate : Type 0 where
  pub id : ObjectRef
  pub route : Route
  pub matches : List HttpMatch
  pub created : Option ℤ

pub record Attachment : Type 0 where
  pub owner : ObjectRef
  pub listener : String

abbrev pub attachment_beq : Attachment → Attachment → Bool
attachment_beq a b = a.owner == b.owner && a.listener == b.listener

pub attachment_beq_iff : (a b : Attachment) → (attachment_beq a b ≡ true) ↔ (a ≡ b)
attachment_beq_iff a b =
    ground (arith, ref_eq.beq_iff a.owner b.owner, string_eq.beq_iff a.listener b.listener)

instance abbrev pub attachment_eq : Eq Attachment
attachment_eq = record { beq = attachment_beq; beq_iff = attachment_beq_iff }

abbrev candidate_of : Object → Route → List HttpMatch → Option Candidate
candidate_of object route matches =
    if is_empty matches
    then none
    else some (record {
      id = record { kind = route.kind; namespace = route.namespace; name = route.name };
      route = route;
      matches = matches;
      created = (meta_of object.k8s_object).creation_timestamp;
    })

unfoldable pub as_candidate : Object → Option Candidate
as_candidate object = elim (as_route object.k8s_object) [
  | none ↦ none
  | some route ↦ elim (http_matches_of object.k8s_object) [
    | none ↦ none
    | some matches ↦ candidate_of object route matches
  ]
]

abbrev ages_differ : Option ℤ → Option ℤ → Bool
ages_differ (some a) (some b) = not (a == b)
ages_differ (some a) none = false
ages_differ none b = false

unfoldable pub separated_by_age : Candidate → Candidate → Bool
separated_by_age a b = ages_differ a.created b.created

unfoldable pub sorts_before : ObjectRef → ObjectRef → Bool
sorts_before a b =
    if not (a.namespace == b.namespace)
    then str_less a.namespace b.namespace
    else str_less a.name b.name

-- The parent's section leaves the listener out.
abbrev pub other_section : Option String → String → Bool
other_section none name = false
other_section (some section) name = not (section == name)

-- The route attaches through the listener, as the inner loop tests it.
unfoldable pub attaches : Route → Parent → Listener → Bool
attaches route parent l =
    if other_section parent.section l.name
    then false
    else if not (accepts_kind l ObjectKinds.http_route).0
    then false
    else accepts_namespace l route.namespace

-- The inner loop.
unfoldable pub attach_listeners :
    Route → Parent → List Listener → List (Attachment × Listener) → List (Attachment × Listener)
attach_listeners route parent [] found = found
attach_listeners route parent (l ∷ ls) found = attach_listeners route parent ls (
    if attaches route parent l
    then put (record { owner = ref_of parent; listener = l.name }) l found
    else found)

-- The outer loop.
unfoldable pub attach_parents :
    Route
    → List (ObjectRef × List Listener)
    → List Parent
    → List (Attachment × Listener)
    → List (Attachment × Listener)
unfolding attach_listeners
attach_parents route by_owner [] found = found
attach_parents route by_owner (parent ∷ parents) found = attach_parents route by_owner parents (
    if not (parent.group == ObjectKinds.group_name)
    then found
    else attach_listeners route parent (get (ref_of parent) by_owner) found)

unfoldable pub attachments_of :
    Route → List (ObjectRef × List Listener) → List (Attachment × Listener)
unfolding attach_parents
attachments_of route by_owner = attach_parents route by_owner (parents_of route) []

unfoldable pub attachment_less : Attachment → Attachment → Bool
attachment_less a b =
    if not (a.owner == b.owner)
    then (if not (a.owner.namespace == b.owner.namespace)
        then str_less a.owner.namespace b.owner.namespace
        else if not (a.owner.name == b.owner.name)
        then str_less a.owner.name b.owner.name
        else str_less a.owner.kind b.owner.kind)
    else str_less a.listener b.listener

unfoldable pub contested_hostnames : List String → List String → List String
contested_hostnames mine theirs =
    if is_empty mine && is_empty theirs
    then "" ∷ []
    else if is_empty mine || is_empty theirs
    then []
    else sort_strings (filter (λ h. contains theirs h) mine)

-- `m.Key < best.Key`, or nothing was found yet.
abbrev pub better : HttpMatch → Option HttpMatch → Bool
better m none = true
better m (some best) = codes_less m.key best.key

-- The loop, with the best match so far.
unfoldable pub best_match : List (List ℕ) → Option HttpMatch → List HttpMatch → Option HttpMatch
best_match seen best [] = best
best_match seen best (m ∷ ms) =
    best_match seen
      (if not (contains seen m.key) then best else if better m best then some m else best) ms

unfoldable pub identical_match : List HttpMatch → List HttpMatch → Option HttpMatch
unfolding best_match
identical_match mine theirs = best_match (map (λ m. m.key) theirs) none mine

abbrev claim_text : String → Text
claim_text hostname =
    if hostname == ""
    then lit "every hostname the listener serves" ∷ []
    else lit "hostname " ∷ quoted hostname ∷ []

abbrev pub message : Candidate → Candidate → Attachment → String → HttpMatch → Diagnostic
message self other at hostname m = record {
  message =
      lit "HTTPRoute "
      ∷ quoted self.id.name
      ∷ lit " and HTTPRoute "
      ∷ quoted other.id.name
      ∷ lit " in namespace "
      ∷ quoted other.id.namespace
      ∷ lit " both claim "
      ∷ (claim_text hostname
          ++ (lit " with the identical match "
              ∷ (m.describe
                  ++ lit " on listener "
                    ∷ quoted at.listener
                    ∷ lit " of "
                    ∷ lit at.owner.kind
                    ∷ lit " "
                    ∷ quoted at.owner.name
                    ∷ lit " in namespace "
                    ∷ quoted at.owner.namespace
                    ∷ lit
                        "; Gateway API's precedence rules leave the tie unbroken, so which route serves a matching request is undefined"
                    ∷ [])));
}

-- The hostname that the inner loop of conflict stops at.
abbrev pub serves : Listener → String → Bool
serves l hostname = hostname == "" || hostnames_intersect l.hostname (hostname ∷ [])

abbrev claimed_on : List (Attachment × Listener) → List String → Attachment → Option String
claimed_on mine hostnames at = elim (value_of at mine) [
  | none ↦ none
  | some l ↦ find? (serves l) hostnames
]

-- The two loops, which return at the first claim.
abbrev pub first_claim :
    List (Attachment × Listener) → List String → List Attachment → Option (Attachment × String)
first_claim mine hostnames [] = none
first_claim mine hostnames (at ∷ ats) = elim (claimed_on mine hostnames at) [
  | none ↦ first_claim mine hostnames ats
  | some hostname ↦ some (at, hostname)
]

unfoldable pub shared_attachments :
    List (Attachment × Listener) → List (Attachment × Listener) → List Attachment
shared_attachments mine theirs =
    sort attachment_less (filter (λ at. contains (map (λ e. e.0) theirs) at) (map (λ e. e.0) mine))

abbrev report_claim :
    Candidate → Candidate → HttpMatch → Option (Attachment × String) → Option Diagnostic
report_claim self other m none = none
report_claim self other m (some (at, hostname)) = some (message self other at hostname m)

abbrev report_match :
    Candidate
    → Candidate
    → List (Attachment × Listener)
    → List Attachment
    → List String
    → Option HttpMatch
    → Option Diagnostic
report_match self other mine shared hostnames none = none
report_match self other mine shared hostnames (some m) =
    report_claim self other m (first_claim mine hostnames shared)

unfoldable pub conflict :
    Candidate
    → Candidate
    → List (Attachment × Listener)
    → List (ObjectRef × List Listener)
    → Option Diagnostic
conflict self other mine by_owner =
    let shared = shared_attachments mine (attachments_of other.route by_owner) in
    let hostnames = contested_hostnames self.route.hostnames other.route.hostnames in
    if is_empty shared
    then none
    else if is_empty hostnames
    then none
    else report_match self other mine shared hostnames (identical_match self.matches other.matches)

-- The body of the loop over the objects, for one that is a candidate.
unfoldable pub judge :
    Candidate
    → List (Attachment × Listener)
    → List (ObjectRef × List Listener)
    → Candidate
    → Option Diagnostic
judge self mine by_owner other =
    if other.id == self.id
    then none
    else if not (sorts_before other.id self.id)
    then none
    else if separated_by_age self other
    then none
    else conflict self other mine by_owner

abbrev judge_object :
    Candidate
    → List (Attachment × Listener)
    → List (ObjectRef × List Listener)
    → Option Candidate
    → Option Diagnostic
judge_object self mine by_owner none = none
judge_object self mine by_owner (some other) = judge self mine by_owner other

abbrev judge_candidate : LintContext → Candidate → List (Attachment × Listener) → List Diagnostic
judge_candidate ctx self mine =
    if is_empty mine
    then []
    else filter_map (λ obj. judge_object self mine (listeners_by_owner ctx) (as_candidate obj))
        ctx.objects

unfoldable pub check_func : LintContext → Object → List Diagnostic
check_func ctx object = elim (as_candidate object) [
  | none ↦ []
  | some self ↦ judge_candidate ctx self (attachments_of self.route (listeners_by_owner ctx))
]
