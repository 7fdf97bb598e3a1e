-- ===== src/Checks/ConflictingRouteMatch/Reported.antt =====
-- Which routes conflicting-route-match reports.
use mathlib.Core.Path.{subst}
use gwlint.Prelude.{
  String, Option, none, some, List, [], ◌∷◌, true, false, ◌==◌, ◌≡◌, ◌↔◌, inl, inr, refl, sym,
  is_empty, map, filter, filter_map, contains, Any, Any-mono, Any-holds, filter_iff,
  filter_map_nonempty, value_of, iff_trans, if◌then◌else◌, Bool-cases, Diagnostic,
}
use gwlint.Prelude.Tests.{string_eq}
use gwlint.Prelude.Distinct.{sort-Any}
use gwlint.Api.{LintContext, Object}
use gwlint.GatewayApi.Parent.{ObjectRef, ref_eq, Listener, listeners_by_owner}
use gwlint.GatewayApi.RouteMatch.{HttpMatch}
use gwlint.Checks.ConflictingRouteMatch.{
  Candidate, Attachment, attachment_eq, attachment_less, as_candidate, separated_by_age,
  sorts_before, attachments_of, contested_hostnames, identical_match, first_claim,
  shared_attachments, report_claim, report_match, conflict, judge, judge_object, judge_candidate,
  check_func,
}
use gwlint.Checks.ConflictingRouteMatch.OneSide.{sorts_before-asym}
use gwlint.Checks.ConflictingRouteMatch.Ties.{Shared, identical_match_iff}
use gwlint.Checks.ConflictingRouteMatch.Meeting.{Contests, contested_iff, Claimed, first_claim_iff}

Any-map {ℓ κ} :
    {A : Type ℓ} {B : Type κ} (P : B → Type 0) (f : A → B) (xs : List A)
    → Any P (map f xs) ↔ Any (λ x. P (f x)) xs
Any-map P f [] = (λ h. h, λ h. h)
Any-map P f (x ∷ xs) =
    let (forth, back) = Any-map P f xs in
    (elim [ inl h ↦ inl h | inr h ↦ inr (forth h) ], elim [ inl h ↦ inl h | inr h ↦ inr (back h) ])

-- What the guards of conflict test follows from what it then finds.
conflict_found :
    (self other : Candidate) (mine : List (Attachment × Listener)) (ats : List Attachment)
    → (hs : List String) (same : Option HttpMatch)
    → ((d : Diagnostic) × ((if is_empty ats
            then none
            else if is_empty hs
            then none
            else report_match self other mine ats hs same)
          ≡ some d))
      ↔ (((m : HttpMatch) × (same ≡ some m))
          × ((c : Attachment × String) × (first_claim mine hs ats ≡ some c)))
conflict_found self other mine [] hs same = (λ (d, e). cc, λ (_, (c, e)). cc)
conflict_found self other mine (a ∷ ats) [] same = (
  λ (d, e). cc,
  λ (_, k).
      let (at, (l, _, claimed)) = Any-holds (a ∷ ats) ((first_claim_iff mine [] (a ∷ ats)).0 k) in
      absurd claimed,
)
conflict_found self other mine (a ∷ ats) (h ∷ hs) none = (λ (d, e). cc, λ ((m, e), _). cc)
conflict_found self other mine (a ∷ ats) (h ∷ hs) (some m) =
    claim (first_claim mine (h ∷ hs) (a ∷ ats))
  where
    claim :
        (o : Option (Attachment × String))
        → ((d : Diagnostic) × (report_claim self other m o ≡ some d))
          ↔ (((n : HttpMatch) × (some m ≡ some n)) × ((c : Attachment × String) × (o ≡ some c)))
    claim none = (λ (d, e). cc, λ (_, (c, e)). cc)
    claim (some (at, hostname)) = (λ _. ((m, refl), ((at, hostname), refl)), λ _. (_, refl))

module _ (self other : Candidate) (mine : List (Attachment × Listener))
    (by_owner : List (ObjectRef × List Listener)) where
  -- The routes attach through a listener that serves a hostname which both claim.
  abbrev pub Meet : Type 0
  Meet =
      Any
        (λ e.
          (contains (map (λ k. k.0) (attachments_of other.route by_owner)) e.0 ≡ true)
          × ((l : Listener) × (value_of e.0 mine ≡ some l)
              × Contests self.route.hostnames other.route.hostnames l))
        mine

  -- The other route comes first by name, neither is older, and both serve the same requests.
  abbrev pub Tie : Type 0
  Tie =
      (sorts_before other.id self.id ≡ true)
      × (separated_by_age self other ≡ false)
      × (Any (Shared self.matches other.matches) self.matches)
      × Meet

  hostnames : List String
  hostnames = contested_hostnames self.route.hostnames other.route.hostnames

  shared : List Attachment
  shared = shared_attachments mine (attachments_of other.route by_owner)

  shared_iff : Any (Claimed mine hostnames) shared ↔ Meet
  unfolding shared shared_attachments hostnames
  shared_iff =
      let theirs = map (λ k. k.0) (attachments_of other.route by_owner) in
      let (sorted, unsorted) =
        sort-Any attachment_less (Claimed mine hostnames)
          (filter (λ at. contains theirs at) (map (λ e. e.0) mine)) in
      let (found, kept) =
        filter_iff (Claimed mine hostnames) (λ at. contains theirs at) (map (λ e. e.0) mine) in
      let (named, unnamed) =
        Any-map (λ at. (contains theirs at ≡ true) × Claimed mine hostnames at) (λ e. e.0) mine in
      (
        λ h.
            Any-mono
              (λ e (c, (l, v, k)).
                (c, (l, v, (contested_iff self.route.hostnames other.route.hostnames l).0 k)))
              mine (named (found (sorted h))),
        λ h. unsorted (
            kept (
              unnamed (
                Any-mono
                  (λ e (c, (l, v, k)).
                    (c, (l, v, (contested_iff self.route.hostnames other.route.hostnames l).1 k)))
                  mine h))),
      )

  conflict_iff :
      ((d : Diagnostic) × (conflict self other mine by_owner ≡ some d))
      ↔ (Any (Shared self.matches other.matches) self.matches × Meet)
  unfolding conflict hostnames shared
  conflict_iff =
      let found =
        conflict_found self other mine shared hostnames
          (identical_match self.matches other.matches) in
      let (same, differ) = identical_match_iff self.matches other.matches in
      let (claimed, unclaimed) = iff_trans (first_claim_iff mine hostnames shared) shared_iff in
      (
        λ h. let (m, c) = found.0 h in (same m, claimed c),
        λ (m, c). found.1 (differ m, unclaimed c),
      )

  -- conflicting-route-match reports a tie of a route with another one exactly when the other comes
  -- first by namespace and name, neither is older, a match of the one has the key of a match of the
  -- other, and both attach through a listener that serves a hostname which both claim.
  pub tie_iff : ((d : Diagnostic) × (judge self mine by_owner other ≡ some d)) ↔ Tie
  unfolding judge
  tie_iff = elim (Bool-cases (other.id == self.id)) [
    | inl e ↦
        let same = (ref_eq.beq_iff other.id self.id).0 e in
        rw e (
          λ (d, k). cc,
          λ (before, _, _, _). (let later = sorts_before-asym other.id self.id before in cc),
        )
    | inr e ↦ elim (Bool-cases (sorts_before other.id self.id)) [
      | inr f ↦ rw (e, f) (λ (d, k). cc, λ (before, _, _, _). cc)
      | inl f ↦ elim (Bool-cases (separated_by_age self other)) [
        | inl g ↦ rw (e, f, g) (λ (d, k). cc, λ (_, age, _, _). cc)
        | inr g ↦
            rw (e, f, g)
              (
                λ h. let (m, c) = conflict_iff.0 h in (refl, refl, m, c),
                λ (_, _, m, c). conflict_iff.1 (m, c),
              )
      ]
    ]
  ]

judged_object :
    (self : Candidate) (mine : List (Attachment × Listener))
    → (by_owner : List (ObjectRef × List Listener)) (o : Option Candidate)
    → ((d : Diagnostic) × (judge_object self mine by_owner o ≡ some d))
      ↔ ((other : Candidate) × (o ≡ some other) × Tie self other mine by_owner)
judged_object self mine by_owner none = (λ (d, e). cc, λ (other, e, _). cc)
judged_object self mine by_owner (some other) =
    let (forth, back) = tie_iff self other mine by_owner in
    (
      λ h. (other, refl, forth h),
      λ (o, e, t).
          back (let same : other ≡ o = (cc) in subst (λ c. Tie self c mine by_owner) (sym same) t),
    )

module _ (ctx : LintContext) (object : Object) (self : Candidate)
    (is_candidate : as_candidate object ≡ some self) where
  mine : List (Attachment × Listener)
  mine = attachments_of self.route (listeners_by_owner ctx)

  judged : check_func ctx object ≡ judge_candidate ctx self mine
  unfolding check_func mine
  judged = rw (is_candidate, check_func) refl

  pub conflicting_match_iff :
      (is_empty (check_func ctx object) ≡ false)
      ↔ Any
          (λ obj.
            (other : Candidate) × (as_candidate obj ≡ some other)
            × Tie self other
                (attachments_of self.route (listeners_by_owner ctx))
                (listeners_by_owner ctx))
          ctx.objects
  unfolding mine
  conflicting_match_iff =
      subst
        (λ ds.
          (is_empty ds ≡ false)
          ↔ Any
              (λ obj.
                (other : Candidate) × (as_candidate obj ≡ some other)
                × Tie self other mine (listeners_by_owner ctx))
              ctx.objects)
        (sym judged)
        (attached mine (
          filter_map_nonempty
            (λ obj. judge_object self mine (listeners_by_owner ctx) (as_candidate obj)) _
            (λ obj. judged_object self mine (listeners_by_owner ctx) (as_candidate obj))
            ctx.objects))
    where
      attached :
          (m : List (Attachment × Listener))
          → ((is_empty (
                  filter_map
                    (λ obj. judge_object self m (listeners_by_owner ctx) (as_candidate obj))
                    ctx.objects)
                ≡ false)
              ↔ Any
                  (λ obj.
                    (other : Candidate) × (as_candidate obj ≡ some other)
                    × Tie self other m (listeners_by_owner ctx))
                  ctx.objects)
          → (is_empty (judge_candidate ctx self m) ≡ false)
            ↔ Any
                (λ obj.
                  (other : Candidate) × (as_candidate obj ≡ some other)
                  × Tie self other m (listeners_by_owner ctx))
                ctx.objects
      attached [] (forth, back) = (
        λ h. cc,
        λ h. (let (obj, (other, _, (_, _, _, met))) = Any-holds ctx.objects h in absurd met),
      )
      attached (a ∷ m) found = found
