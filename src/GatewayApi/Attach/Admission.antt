-- ===== src/GatewayApi/Attach/Admission.antt =====
-- What the admission functions decide.
use mathlib.Core.Path.{subst}
use mathlib.Core.Bool.{false≢true}
use gwlint.Prelude.{
  or_else, ap, String, Option, none, some, List, true, false, ◌≡◌, ◌≢◌, ◌↔◌, ◌⊎◌, inl, inr, refl,
  sym, ◌∙◌, ◌==◌, is_empty, filter_map, filter_map_iff, contains, any_iff, Any, Any-mono, arith,
  Bool-cases, is_empty-eq-false,
}
use gwlint.Prelude.Tests.{string_eq}
use gwlint.Api.{RouteGroupKind}
use gwlint.ObjectKinds
use gwlint.GatewayApi.Parent.{Listener}
use gwlint.GatewayApi.Attach.{
  explicit_kinds, has_explicit_kinds, own_kind, is_foreign, accepted_kinds, accepts_kind, from_of,
  admits_from, accepts_namespace, namespace_policy,
}

abbrev Admits : Option String → String → String → Type 0
Admits from own ns = (or_else from ObjectKinds.from_same ≢ ObjectKinds.from_same) ⊎ (ns ≡ own)

own_namespace_iff : (own ns : String) → ((ns == own) ≡ true) ↔ Admits none own ns
own_namespace_iff own ns = (
  λ h. inr ((string_eq.beq_iff ns own).0 h),
  elim [ inl h ↦ absurd (h refl) | inr e ↦ (string_eq.beq_iff ns own).1 e ],
)

admits_from_iff :
    (from : Option String) (own ns : String) → (admits_from from own ns ≡ true) ↔ Admits from own ns
admits_from_iff none own ns = own_namespace_iff own ns
admits_from_iff (some from) own ns = elim (Bool-cases (from == ObjectKinds.from_same)) [
  | inl same ↦
      subst (λ f. (admits_from (some f) own ns ≡ true) ↔ Admits (some f) own ns)
        (sym ((string_eq.beq_iff from ObjectKinds.from_same).0 same)) (own_namespace_iff own ns)
  | inr other ↦ (
    λ _. inl (λ e. false≢true (sym other ∙ (string_eq.beq_iff from ObjectKinds.from_same).1 e)),
    λ _. ground arith,
  )
]

-- A listener admits a namespace exactly when its policy, as NamespacePolicy names it, is not "Same"
-- or the namespace is that of its owner.
pub accepts_namespace_iff :
    (l : Listener) (ns : String)
    → (accepts_namespace l ns ≡ true)
      ↔ ((namespace_policy l ≢ ObjectKinds.from_same) ⊎ (ns ≡ l.owner.namespace))
unfolding accepts_namespace namespace_policy
accepts_namespace_iff l ns = admits_from_iff (from_of l.allowed) l.owner.namespace ns

-- The entry of allowedRoutes.kinds is of the Gateway API group, which an omitted group means.
abbrev pub IsOwn : RouteGroupKind → Type 0
IsOwn k = (k.group ≡ none) ⊎ (k.group ≡ some ObjectKinds.group_name)

is_foreign-eq-false :
    (group : Option String)
    → (is_foreign group ≡ false) ↔ ((group ≡ none) ⊎ (group ≡ some ObjectKinds.group_name))
is_foreign-eq-false none = (λ _. inl refl, λ _. refl)
is_foreign-eq-false (some group) = (
  λ h. inr (ap some ((string_eq.beq_iff group ObjectKinds.group_name).0 (ground arith))),
  elim [ inl e ↦ cc | inr e ↦ rw ((string_eq.beq_iff group ObjectKinds.group_name).1 (cc)) ],
)

own_kind_iff :
    (k : RouteGroupKind) (P : String → Type 0)
    → ((x : String) × (own_kind k ≡ some x) × P x) ↔ (IsOwn k × P k.kind)
own_kind_iff k P = elim (Bool-cases (is_foreign k.group)) [
  | inl foreign ↦ rw foreign (
    λ (x, e, p). cc,
    λ (own, p). absurd (false≢true (sym ((is_foreign-eq-false k.group).1 own) ∙ foreign)),
  )
  | inr own ↦ rw own (
    λ (x, e, p). ((is_foreign-eq-false k.group).0 own, subst P (cc) p),
    λ (_, p). (k.kind, refl, p),
  )
]

listed_kinds_iff :
    (ks : List RouteGroupKind) (P : String → Type 0)
    → Any P (filter_map own_kind ks) ↔ Any (λ k. IsOwn k × P k.kind) ks
listed_kinds_iff ks P =
    let (found, kept) = filter_map_iff P own_kind ks in
    (
      λ h. Any-mono (λ k. (own_kind_iff k P).0) ks (found h),
      λ h. kept (Any-mono (λ k. (own_kind_iff k P).1) ks h),
    )

accepts_kind_lem :
    (l : Listener) (kind : String)
    → ((accepts_kind l kind).0 ≡ true)
      ↔ ((is_empty (accepted_kinds l) ≡ true) ⊎ (contains (accepted_kinds l) kind ≡ true))
unfolding accepts_kind
accepts_kind_lem l kind = ground arith

accepted_kinds-explicit :
    (l : Listener)
    → has_explicit_kinds l ≡ true
    → accepted_kinds l ≡ filter_map own_kind (explicit_kinds l.allowed)
unfolding accepted_kinds
accepted_kinds-explicit l h = rw h

-- A listener with kinds of its own accepts a route kind exactly when it lists that kind in the
-- Gateway API group, or lists no kind of that group at all.
pub accepts_kind-explicit :
    (l : Listener) (kind : String)
    → has_explicit_kinds l ≡ true
    → ((accepts_kind l kind).0 ≡ true) ↔ (
        Any (λ k. IsOwn k × (k.kind ≡ kind)) (explicit_kinds l.allowed)
        ⊎ ¬ Any IsOwn (explicit_kinds l.allowed))
accepts_kind-explicit l kind h =
    let ks = explicit_kinds l.allowed in
    let own = filter_map own_kind ks in
    let (to, from) =
      subst
        (λ xs.
          ((accepts_kind l kind).0 ≡ true) ↔ ((is_empty xs ≡ true) ⊎ (contains xs kind ≡ true)))
        (accepted_kinds-explicit l h) (accepts_kind_lem l kind) in
    let (some_own, listed) = is_empty-eq-false own in
    let (hit, kept) = listed_kinds_iff ks (λ x. x == kind ≡ true) in
    let (any_own, own_any) = listed_kinds_iff ks (λ _. Unit) in
    (
      λ k. elim (to k) [
        | inl empty ↦
            inr (λ a. false≢true (sym (listed (own_any (Any-mono (λ x i. (i, tt)) ks a))) ∙ empty))
        | inr found ↦ inl (
            Any-mono (λ x (i, e). (i, (string_eq.beq_iff x.kind kind).0 e)) ks
              (hit ((any_iff _ own).0 found)))
      ],
      elim [
        | inl a ↦ from (
            inr (
              (any_iff _ own).1
                (kept (Any-mono (λ x (i, e). (i, (string_eq.beq_iff x.kind kind).1 e)) ks a))))
        | inr no_own ↦ elim (Bool-cases (is_empty own)) [
          | inl empty ↦ from (inl empty)
          | inr some_kind ↦
              absurd (no_own (Any-mono (λ x i. i.0) ks (any_own (some_own some_kind))))
        ]
      ],
    )
