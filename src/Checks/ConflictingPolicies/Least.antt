-- ===== src/Checks/ConflictingPolicies/Least.antt =====
-- A conflict over a slot has a policy that reports it: the first by name.
use mathlib.Core.Path.{subst}
use mathlib.Core.Bool.{false≢true}
use gwlint.Prelude.{
  some, List, [], ◌∷◌, true, false, ◌≡◌, ◌≢◌, ◌⊎◌, inl, inr, refl, sym, ◌∙◌, ◌==◌, contains,
  Bool-cases, Any, Any-mono, Diagnostic, str_less, str_less_trans, str_less_irrefl, str_less-asym,
}
use gwlint.Prelude.Tests.{nat_eq}
use gwlint.Api.{LintContext, Object, K8sObject, BackendTrafficPolicy, backend_traffic_policy}
use gwlint.Checks.ConflictingPolicies.{Target, target_eq, targets_of, judge}
use gwlint.Checks.ConflictingPolicies.Reporter.{
  Claims, IsRival, IsContested, IsListed, contains-targets_of, conflict_iff,
}

module _ (t : Target) where
  -- The object is a policy that claims the slot, with a name that comes before `q`'s.
  abbrev Beats : BackendTrafficPolicy → K8sObject → Type 0
  Beats q (backend_traffic_policy other) =
      Claims other t × (str_less other.meta.name q.meta.name ≡ true)
  Beats q _ = ⊥

  -- The first by name of `p` and the policies among the objects that claim the slot.
  abbrev Least : BackendTrafficPolicy → List Object → Type 0
  Least p objs =
      (q : BackendTrafficPolicy) × Claims q t
      × ((q ≡ p) ⊎ Any (λ obj. obj.k8s_object ≡ backend_traffic_policy q) objs)
      × (str_less p.meta.name q.meta.name ≡ false)
      × (¬ Any (λ obj. Beats q obj.k8s_object) objs)

  -- An object that does not beat `p` leaves the first of the rest as it is.
  keep :
      (p : BackendTrafficPolicy) (obj : Object) (objs : List Object)
      → ((q : BackendTrafficPolicy)
          → str_less p.meta.name q.meta.name ≡ false
          → ¬ Beats q obj.k8s_object)
      → Least p objs
      → Least p (obj ∷ objs)
  keep p obj objs loses (q, claims, inl same, after, least) =
      (q, claims, inl same, after, elim [ inl h ↦ loses q after h | inr h ↦ least h ])
  keep p obj objs loses (q, claims, inr listed, after, least) =
      (q, claims, inr (inr listed), after, elim [ inl h ↦ loses q after h | inr h ↦ least h ])

  -- One that does takes its place.
  replace :
      (p o : BackendTrafficPolicy) (obj : Object) (objs : List Object)
      → obj.k8s_object ≡ backend_traffic_policy o
      → str_less o.meta.name p.meta.name ≡ true
      → Least o objs
      → Least p (obj ∷ objs)
  replace p o obj objs here less (q, claims, found, after, least) = (
    q,
    claims,
    inr (elim found [ inl same ↦ inl (cc) | inr listed ↦ inr listed ]),
    str_less_trans q.meta.name o.meta.name p.meta.name after
        (str_less-asym o.meta.name p.meta.name less),
    elim [
      | inl h ↦ let (_, before) = subst (Beats q) here h in false≢true (sym after ∙ before)
      | inr h ↦ least h
    ],
  )

  not_beaten :
      (p o q : BackendTrafficPolicy)
      → str_less o.meta.name p.meta.name ≡ false
      → str_less p.meta.name q.meta.name ≡ false
      → ¬ (str_less o.meta.name q.meta.name ≡ true)
  not_beaten p o q h k less =
      false≢true (sym (str_less_trans q.meta.name p.meta.name o.meta.name k h) ∙ less)

  step :
      (p : BackendTrafficPolicy) (obj : Object) (objs : List Object) (k : K8sObject)
      → obj.k8s_object ≡ k
      → ((r : BackendTrafficPolicy) → Claims r t → Least r objs)
      → Claims p t
      → Least p (obj ∷ objs)
  step p obj objs (backend_traffic_policy o) here rest claims =
      elim (Bool-cases (contains (targets_of o) t)) [
        | inr other ↦
            keep p obj objs
              (λ q _ h.
                false≢true (sym other ∙ (contains-targets_of o t).1 (subst (Beats q) here h).0))
              (rest p claims)
        | inl slot ↦ elim (Bool-cases (str_less o.meta.name p.meta.name)) [
          | inl less ↦ replace p o obj objs here less (rest o ((contains-targets_of o t).0 slot))
          | inr not_less ↦
              keep p obj objs
                (λ q after h. not_beaten p o q not_less after (subst (Beats q) here h).1)
                (rest p claims)
        ]
      ]
  step p obj objs _ here rest claims =
      keep p obj objs (λ q _ h. subst (Beats q) here h) (rest p claims)

  first_by_name : (objs : List Object) (p : BackendTrafficPolicy) → Claims p t → Least p objs
  first_by_name [] p claims = (p, claims, inl refl, str_less_irrefl p.meta.name, λ h. h)
  first_by_name (obj ∷ objs) p claims =
      step p obj objs obj.k8s_object refl (λ r. first_by_name objs r) claims

module _ (ctx : LintContext) (t : Target) where
  preceded_Beats :
      (q : BackendTrafficPolicy) (obj : K8sObject)
      → IsRival q t (λ n. str_less n q.meta.name ≡ true) obj
      → Beats t q obj
  preceded_Beats q (backend_traffic_policy other) (_, claims, less) = (claims, less)
  preceded_Beats q (_) h = absurd h

  listed_contests :
      (p q : BackendTrafficPolicy)
      → IsListed ctx p
      → Claims p t
      → p.address ≢ q.address
      → IsContested ctx q t
  listed_contests p q listed claims apart =
      Any-mono (λ obj here. subst (IsRival q t (λ _. Unit)) (sym here) (apart, claims, tt))
        ctx.objects listed

  same_rivals :
      (p q : BackendTrafficPolicy) (obj : K8sObject)
      → p.address ≡ q.address
      → IsRival p t (λ _. Unit) obj
      → IsRival q t (λ _. Unit) obj
  same_rivals p q (backend_traffic_policy other) same (apart, claims, _) =
      (λ e. apart (e ∙ sym same), claims, tt)
  same_rivals p q (_) same h = absurd h

  still-IsContested :
      (p q : BackendTrafficPolicy)
      → IsListed ctx p
      → Claims p t
      → IsContested ctx p t
      → IsContested ctx q t
  still-IsContested p q listed claims contested = elim (Bool-cases (p.address == q.address)) [
    | inl same ↦
        Any-mono
          (λ obj. same_rivals p q obj.k8s_object ((nat_eq.beq_iff p.address q.address).0 same))
          ctx.objects contested
    | inr apart ↦
        listed_contests p q listed claims
          (λ e. false≢true (sym apart ∙ (nat_eq.beq_iff p.address q.address).1 e))
  ]

  -- When a policy of the manifest set claims a slot that another policy claims too, some policy of
  -- the set that claims the slot reports it.
  pub some_reporter :
      (p : BackendTrafficPolicy)
      → IsListed ctx p
      → Claims p t
      → IsContested ctx p t
      → (q : BackendTrafficPolicy) × IsListed ctx q
        × Claims q t
        × ((d : Diagnostic) × (judge ctx q t ≡ some d))
  some_reporter p listed claims contested =
      let (q, claims_q, found, _, least) = first_by_name t ctx.objects p claims in
      let listed_q : IsListed ctx q = elim found [
        | inl same ↦ subst (IsListed ctx) (sym same) listed
        | inr here ↦ here
      ] in
      (
        q,
        listed_q,
        claims_q,
        (conflict_iff ctx q t).1 (
          still-IsContested p q listed claims contested,
          λ preceded.
              least (Any-mono (λ obj. preceded_Beats q obj.k8s_object) ctx.objects preceded),
        ),
      )
