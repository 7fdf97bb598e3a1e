-- ===== src/Checks/ConflictingPolicies/Reporter.antt =====
-- Which of the policies that claim one slot reports the conflict.
use mathlib.Core.Path.{subst}
use mathlib.Core.Bool.{false≢true}
use gwlint.Prelude.{
  String, none, some, List, [], ◌∷◌, ◌++◌, Bool, true, false, not, ◌≡◌, ◌≢◌, ◌↔◌, ◌⊎◌, inl, inr,
  refl, sym, ◌∙◌, ap, ◌==◌, ◌&&◌, ◌||◌, iff_trans, is_empty, filter_map, all, map, contains,
  eq-false_of_ne, Bool-cases, Any, Any-mono, arith, Diagnostic, if◌then◌else◌, str_less, sort,
  insert_sorted, sort_strings, is_empty-eq-false, filter_map_iff, str_less-total,
}
use gwlint.Prelude.Tests.{string_eq, nat_eq}
use gwlint.Api.{
  LintContext, Object, K8sObject, BackendTrafficPolicy, PolicyTargetReference,
  backend_traffic_policy,
}
use gwlint.Checks.ConflictingPolicies.{
  Target, target_eq, target_beq_iff, target_of, refs_of, add_distinct, targets_of, rival,
  other_policies_targeting, is_first_by_name, message, judge,
}

contains-append :
    (xs : List Target) (x t : Target) → contains (xs ++ x ∷ []) t ≡ (contains xs t || x == t)
contains-append [] x t = ground arith
contains-append (y ∷ xs) x t = ground (arith, contains-append xs x t)

contains-add_distinct :
    (t : Target) (xs ts : List Target)
    → contains (add_distinct xs ts) t ≡ (contains xs t || contains ts t)
unfolding add_distinct
contains-add_distinct t xs [] = ground arith
contains-add_distinct t xs (u ∷ ts) = elim (Bool-cases (contains xs u)) [
  | inl h ↦ rw h (contains-add_distinct t xs ts ∙ ground (arith, target_beq_iff u t))
  | inr h ↦
      rw h (contains-add_distinct t (xs ++ u ∷ []) ts ∙ ground (arith, contains-append xs u t))
]

-- The policy has a reference, deprecated or not, to the slot.
abbrev pub Claims : BackendTrafficPolicy → Target → Type 0
Claims policy t = Any (λ ref. target_of policy ref ≡ t) (refs_of policy)

or_iff :
    {P Q : Type 0} {a b : Bool} → ((a ≡ true) ↔ P) → ((b ≡ true) ↔ Q) → ((a || b) ≡ true) ↔ (P ⊎ Q)
or_iff {a = true} p q = (λ _. inl (p.0 refl), λ _. refl)
or_iff {a = false} p q =
    (λ h. inr (q.0 h), elim [ inl k ↦ absurd (false≢true (p.1 k)) | inr k ↦ q.1 k ])

contains-map :
    (policy : BackendTrafficPolicy) (t : Target) (refs : List PolicyTargetReference)
    → (contains (map (target_of policy) refs) t ≡ true) ↔ Any (λ ref. target_of policy ref ≡ t) refs
contains-map policy t [] = (λ h. cc, λ h. absurd h)
contains-map policy t (ref ∷ refs) =
    or_iff (target_beq_iff (target_of policy ref) t) (contains-map policy t refs)

pub contains-targets_of :
    (policy : BackendTrafficPolicy) (t : Target)
    → (contains (targets_of policy) t ≡ true) ↔ Claims policy t
unfolding targets_of
contains-targets_of policy t =
    rw (contains-add_distinct t [] (map (target_of policy) (refs_of policy)))
      (contains-map policy t (refs_of policy))

module _ (p : String → Bool) where
  all-insert_sorted :
      (a : String) (xs : List String) → all p (insert_sorted str_less a xs) ≡ (p a && all p xs)
  all-insert_sorted a [] = refl
  all-insert_sorted a (b ∷ xs) = elim (Bool-cases (str_less b a)) [
    | inl h ↦ rw h (ground (arith, all-insert_sorted a xs))
    | inr h ↦ rw h refl
  ]

  all-sort : (xs : List String) → all p (sort_strings xs) ≡ all p xs
  unfolding sort_strings
  all-sort [] = refl
  all-sort (a ∷ xs) = all-insert_sorted a (sort str_less xs) ∙ ap (λ b. p a && b) (all-sort xs)

is_empty-insert_sorted :
    (a : String) (xs : List String) → is_empty (insert_sorted str_less a xs) ≡ false
is_empty-insert_sorted a [] = refl
is_empty-insert_sorted a (b ∷ xs) = elim (Bool-cases (str_less b a)) [
  | inl h ↦ rw h refl
  | inr h ↦ rw h refl
]

is_empty-sort : (xs : List String) → is_empty (sort_strings xs) ≡ is_empty xs
unfolding sort_strings
is_empty-sort [] = refl
is_empty-sort (a ∷ xs) = is_empty-insert_sorted a (sort str_less xs)

-- The object is another policy that claims the slot, and its name satisfies `P`.
abbrev pub IsRival : BackendTrafficPolicy → Target → (String → Type 0) → K8sObject → Type 0
IsRival self t P (backend_traffic_policy other) =
    (other.address ≢ self.address) × Claims other t × P other.meta.name
IsRival self t P _ = ⊥

module _ (self : BackendTrafficPolicy) (t : Target) (P : String → Type 0) where
  guarded_name_iff :
      (other : BackendTrafficPolicy) (a b : Bool)
      → ((a ≡ true) ↔ (other.address ≡ self.address))
      → ((b ≡ true) ↔ Claims other t)
      → ((n : String) × ((if a then none else if b then some other.meta.name else none) ≡ some n)
          × P n)
        ↔ IsRival self t P (backend_traffic_policy other)
  guarded_name_iff other true b same claims =
      (λ (n, e, p). cc, λ (different, c, p). absurd (different (same.0 refl)))
  guarded_name_iff other false true same claims = (
    λ (n, e, p). (λ k. false≢true (same.1 k), claims.0 refl, subst P (cc) p),
    λ (different, c, p). (other.meta.name, refl, p),
  )
  guarded_name_iff other false false same claims =
      (λ (n, e, p). cc, λ (different, c, p). absurd (false≢true (claims.1 c)))

  rival_iff :
      (obj : K8sObject) → ((n : String) × (rival self t obj ≡ some n) × P n) ↔ IsRival self t P obj
  rival_iff (backend_traffic_policy other) =
      guarded_name_iff other (other.address == self.address) (contains (targets_of other) t)
        (nat_eq.beq_iff other.address self.address) (contains-targets_of other t)
  rival_iff _ = (λ (n, e, p). cc, λ h. absurd h)

  rivals_iff :
      (objs : List Object)
      → Any P (filter_map (λ obj. rival self t obj.k8s_object) objs)
        ↔ Any (λ obj. IsRival self t P obj.k8s_object) objs
  rivals_iff objs = iff_trans (filter_map_iff P (λ obj. rival self t obj.k8s_object) objs) (
    Any-mono (λ obj. (rival_iff obj.k8s_object).0) objs,
    Any-mono (λ obj. (rival_iff obj.k8s_object).1) objs,
  )

-- Another policy of the manifest set claims the slot.
abbrev pub IsContested : LintContext → BackendTrafficPolicy → Target → Type 0
IsContested ctx self t = Any (λ obj. IsRival self t (λ _. Unit) obj.k8s_object) ctx.objects

-- One whose name comes before this policy's does.
abbrev pub IsPreceded : LintContext → BackendTrafficPolicy → Target → Type 0
IsPreceded ctx self t =
    Any (λ obj. IsRival self t (λ n. str_less n self.meta.name ≡ true) obj.k8s_object) ctx.objects

reports_when :
    (a b : Bool) (d : Diagnostic)
    → ((x : Diagnostic) × ((if a then none else if not b then none else some d) ≡ some x))
      ↔ ((a ≡ false) × (b ≡ true))
reports_when true b d = (λ (x, e). cc, λ h. cc)
reports_when false true d = (λ _. (refl, refl), λ _. (d, refl))
reports_when false false d = (λ (x, e). cc, λ h. cc)

none_before_iff :
    (name : String) (xs : List String)
    → (all (λ r. not (str_less r name)) xs ≡ true) ↔ (¬ Any (λ r. str_less r name ≡ true) xs)
none_before_iff name [] = (λ _ h. h, λ _. refl)
none_before_iff name (x ∷ xs) = ground (arith, none_before_iff name xs)

module _ (ctx : LintContext) (self : BackendTrafficPolicy) (t : Target) where
  is_empty-IsContested :
      (is_empty (other_policies_targeting ctx self t) ≡ false) ↔ IsContested ctx self t
  unfolding other_policies_targeting
  is_empty-IsContested =
      rw (is_empty-sort (filter_map (λ obj. rival self t obj.k8s_object) ctx.objects)) (
        iff_trans (is_empty-eq-false (filter_map (λ obj. rival self t obj.k8s_object) ctx.objects))
          (rivals_iff self t (λ _. Unit) ctx.objects))

  first_iff :
      (is_first_by_name self.meta.name (other_policies_targeting ctx self t) ≡ true)
      ↔ (¬ IsPreceded ctx self t)
  unfolding is_first_by_name other_policies_targeting
  first_iff =
      let names = filter_map (λ obj. rival self t obj.k8s_object) ctx.objects in
      let (found, kept) = rivals_iff self t (λ n. str_less n self.meta.name ≡ true) ctx.objects in
      rw (all-sort (λ r. not (str_less r self.meta.name)) names)
        (iff_trans (none_before_iff self.meta.name names) (λ h k. h (kept k), λ h k. h (found k)))

  -- A policy reports a slot that it claims exactly when another policy of the manifest set, read
  -- from another manifest, claims the slot too and none of those has a name that comes before its
  -- own.
  pub conflict_iff :
      ((d : Diagnostic) × (judge ctx self t ≡ some d))
      ↔ (IsContested ctx self t × (¬ IsPreceded ctx self t))
  unfolding judge
  conflict_iff =
      let rivals = other_policies_targeting ctx self t in
      let (read, build) =
        reports_when (is_empty rivals) (is_first_by_name self.meta.name rivals)
          (message rivals t) in
      (
        λ h.
            let (contested, first) = read h in
            (is_empty-IsContested.0 contested, first_iff.0 first),
        λ (contested, first). build (is_empty-IsContested.1 contested, first_iff.1 first),
      )

-- The manifest set has the policy.
abbrev pub IsListed : LintContext → BackendTrafficPolicy → Type 0
IsListed ctx policy = Any (λ obj. obj.k8s_object ≡ backend_traffic_policy policy) ctx.objects

module _ (ctx : LintContext) (t : Target) where
  not_after :
      (p q : BackendTrafficPolicy)
      → IsListed ctx p
      → Claims p t
      → p.address ≢ q.address
      → ¬ IsPreceded ctx q t
      → str_less p.meta.name q.meta.name ≡ false
  not_after p q listed claims apart first = eq-false_of_ne (λ less. first (
      Any-mono
        (λ obj here.
          subst (IsRival q t (λ n. str_less n q.meta.name ≡ true)) (sym here) (apart, claims, less))
        ctx.objects listed))

  -- Of two policies of the manifest set that claim one slot, read from different manifests and with
  -- different names, at most one reports the slot.
  pub one_reporter :
      (p q : BackendTrafficPolicy)
      → IsListed ctx p
      → IsListed ctx q
      → Claims p t
      → Claims q t
      → p.address ≢ q.address
      → p.meta.name ≢ q.meta.name
      → ¬ (
          ((d : Diagnostic) × (judge ctx p t ≡ some d))
          × ((d : Diagnostic) × (judge ctx q t ≡ some d)))
  one_reporter p q listed_p listed_q claims_p claims_q apart names (by_p, by_q) =
      let (_, first_p) = (conflict_iff ctx p t).0 by_p in
      let (_, first_q) = (conflict_iff ctx q t).0 by_q in
      names (
        str_less-total p.meta.name q.meta.name (not_after p q listed_p claims_p apart first_q)
          (not_after q p listed_q claims_q (λ e. apart (sym e)) first_p))
