-- ===== src/GatewayApi/Parent/Selection.antt =====
-- What a parentRef selects, told from the objects of the manifest set alone: ListenersByOwner and
-- ListenersFor of pkg/gatewayapi/parent.go and listenerselect.go, with no index.
use mathlib.Core.Path.{subst}
use gwlint.Prelude.{
  String, Option, none, some, List, [], ◌∷◌, ◌++◌, Bool, true, false, ◌==◌, ◌≡◌, ◌≢◌, ◌⊎◌, inl, inr,
  refl, sym, ap, ◌∙◌, if◌then◌else◌, All, filter, map, lookup, extended, flat_map, Bool-cases,
  differs_iff,
}
use gwlint.Prelude.Tests.{string_eq}
use gwlint.Api.{ListenerEntry, K8sObject, Object, LintContext, gateway_v1, listener_set_v1}
use gwlint.ObjectKinds
use gwlint.GatewayApi.Parent.{
  Parent, ObjectRef, ref_eq, ref_of, ref_to, Listener, listener_of, listeners_of, named_listener,
  select_section, listeners_for, listeners_by_owner,
}
use gwlint.GatewayApi.Parent.Declared.{
  declared, declared_by, lookup-listeners_by_owner, listeners_for-listeners_by_owner,
}

-- The entries of the object, where it is the one named: a v1 Gateway or a ListenerSet.
abbrev pub entries_at : ObjectRef → K8sObject → List ListenerEntry
entries_at ref (gateway_v1 gw) =
    if ref_to ObjectKinds.gateway (gateway_v1 gw) == ref then gw.listeners else []
entries_at ref (listener_set_v1 ls) =
    if ref_to ObjectKinds.listener_set (listener_set_v1 ls) == ref then ls.listeners else []
entries_at ref _ = []

-- Those of the whole set, in order.
abbrev pub entries_of : LintContext → ObjectRef → List ListenerEntry
entries_of ctx ref = flat_map (λ obj. entries_at ref obj.k8s_object) ctx.objects

-- The listener that an entry of the named object stands for.
abbrev pub as_listener : ObjectRef → ListenerEntry → Listener
as_listener ref entry = record {
  owner = ref;
  name = entry.name;
  hostname = entry.hostname;
  port = entry.port;
  protocol = entry.protocol;
  allowed = entry.allowed_routes;
  owner_kind = ref.kind;
}

module _ (ref : ObjectRef) where
  module _ (o : ObjectRef) where
    kept :
        o == ref ≡ true
        → (es : List ListenerEntry)
        → filter (λ l. l.owner == ref) (map (listener_of o.kind o) es)
          ≡ map (listener_of o.kind o) es
    kept same [] = refl
    kept same (e ∷ es) = rw same (ap (λ ls. listener_of o.kind o e ∷ ls) (kept same es))

    dropped :
        o == ref ≡ false
        → (es : List ListenerEntry)
        → filter (λ l. l.owner == ref) (map (listener_of o.kind o) es) ≡ []
    dropped other [] = refl
    dropped other (e ∷ es) = rw other (dropped other es)

    of_one :
        (es : List ListenerEntry)
        → filter (λ l. l.owner == ref) (map (listener_of o.kind o) es)
          ≡ map (as_listener ref) (if o == ref then es else [])
    of_one es = elim (Bool-cases (o == ref)) [
      | inl same ↦
          kept same es
          ∙ ap (λ r. map (as_listener r) es) ((ref_eq.beq_iff o ref).0 same)
          ∙ ap (λ b. map (as_listener ref) (if b then es else [])) (sym same)
      | inr other ↦
          dropped other es ∙ ap (λ b. map (as_listener ref) (if b then es else [])) (sym other)
    ]

  of_object :
      (obj : K8sObject)
      → filter (λ l. l.owner == ref) (listeners_of obj) ≡ map (as_listener ref) (entries_at ref obj)
  unfolding listeners_of
  of_object (gateway_v1 gw) = of_one (ref_to ObjectKinds.gateway (gateway_v1 gw)) gw.listeners
  of_object (listener_set_v1 ls) =
      of_one (ref_to ObjectKinds.listener_set (listener_set_v1 ls)) ls.listeners
  of_object _ = refl

filter-append :
    (p : Listener → Bool) (xs ys : List Listener) → filter p (xs ++ ys) ≡ filter p xs ++ filter p ys
filter-append p [] ys = refl
filter-append p (x ∷ xs) ys = elim (Bool-cases (p x)) [
  | inl e ↦ rw e (ap (λ zs. x ∷ zs) (filter-append p xs ys))
  | inr e ↦ rw e (filter-append p xs ys)
]

map-append :
    (f : ListenerEntry → Listener) (xs ys : List ListenerEntry)
    → map f (xs ++ ys) ≡ map f xs ++ map f ys
map-append f [] ys = refl
map-append f (x ∷ xs) ys = ap (λ zs. f x ∷ zs) (map-append f xs ys)

-- The listeners that the set declares for a reference are the entries that it names, in order.
pub declared_by-entries_of :
    (ctx : LintContext) (ref : ObjectRef)
    → declared_by ctx ref ≡ map (as_listener ref) (entries_of ctx ref)
declared_by-entries_of ctx ref = over ctx.objects
  where
    over :
        (objs : List Object)
        → filter (λ l. l.owner == ref) (declared objs)
          ≡ map (as_listener ref) (flat_map (λ obj. entries_at ref obj.k8s_object) objs)
    over [] = refl
    over (obj ∷ objs) =
        filter-append (λ l. l.owner == ref) (listeners_of obj.k8s_object) (declared objs)
        ∙ ap (λ ls. ls ++ filter (λ l. l.owner == ref) (declared objs))
            (of_object ref obj.k8s_object)
        ∙ ap (λ ls. map (as_listener ref) (entries_at ref obj.k8s_object) ++ ls) (over objs)
        ∙ sym (map-append (as_listener ref) (entries_at ref obj.k8s_object) _)

pub lookup-listeners_by_owner-entries_of :
    (ctx : LintContext) (ref : ObjectRef)
    → lookup ref (listeners_by_owner ctx)
      ≡ extended none (map (as_listener ref) (entries_of ctx ref))
lookup-listeners_by_owner-entries_of ctx ref =
    lookup-listeners_by_owner ctx ref ∙ ap (extended none) (declared_by-entries_of ctx ref)

-- What a parentRef selects of the listeners that its object declares: all where it names none and
-- else the first of that name.
abbrev pub selected : LintContext → Parent → List Listener
selected ctx parent =
    select_section (map (as_listener (ref_of parent)) (entries_of ctx (ref_of parent)))
      parent.section

pub listeners_for-selected :
    (ctx : LintContext) (parent : Parent)
    → listeners_for (listeners_by_owner ctx) parent ≡ selected ctx parent
listeners_for-selected ctx parent =
    listeners_for-listeners_by_owner ctx parent
    ∙ ap (λ ls. select_section ls parent.section) (declared_by-entries_of ctx (ref_of parent))

-- All where no section is named; else nothing where none has the name, or the first that has it.
abbrev pub IsSelection : Option String → List Listener → List Listener → Type 0
IsSelection none all found = found ≡ all
IsSelection (some name) all found =
    (found ≡ []) × All (λ l. l.name ≢ name) all
    ⊎ ((before : List Listener) × (l : Listener) × (after : List Listener) × (all
          ≡ before ++ l ∷ after)
        × All (λ l. l.name ≢ name) before
        × (l.name ≡ name)
        × (found ≡ l ∷ []))

named_listener-IsSelection :
    (name : String) (ls : List Listener) → IsSelection (some name) ls (named_listener ls name)
named_listener-IsSelection name [] = inl (refl, tt)
named_listener-IsSelection name (l ∷ ls) = elim (Bool-cases (l.name == name)) [
  | inl same ↦
      rw (named_listener, same)
        (inr ([], l, ls, refl, tt, (string_eq.beq_iff l.name name).0 same, refl))
  | inr other ↦
      let differs = (differs_iff l.name name).0 other in
      rw (named_listener, other)
        (elim (named_listener-IsSelection name ls) [
          | inl (nothing, absent) ↦ inl (nothing, (differs, absent))
          | inr (before, m, after, e, absent, h, found) ↦
              inr (l ∷ before, m, after, ap (λ ms. l ∷ ms) e, (differs, absent), h, found)
        ])
]

select_section-IsSelection :
    (section : Option String) (ls : List Listener)
    → IsSelection section ls (select_section ls section)
select_section-IsSelection none ls = refl
select_section-IsSelection (some name) ls = named_listener-IsSelection name ls

-- Looked up in the index of the manifest set, a parentRef that names no section selects every
-- listener of the v1 Gateways and ListenerSets that have its kind, namespace and name, in order.
-- One that names a section selects the first of these that has the name and nothing where none has.
pub listeners_for-IsSelection :
    (ctx : LintContext) (parent : Parent)
    → IsSelection parent.section
        (map (as_listener (ref_of parent)) (entries_of ctx (ref_of parent)))
        (listeners_for (listeners_by_owner ctx) parent)
listeners_for-IsSelection ctx parent =
    subst (IsSelection parent.section _) (sym (listeners_for-selected ctx parent))
      (select_section-IsSelection parent.section _)
