-- ===== src/GatewayApi/Parent/Declared.antt =====
-- The index of ListenersByOwner (pkg/gatewayapi/parent.go) against the list of all listeners.
use gwlint.Prelude.{
  List, [], ◌∷◌, ◌++◌, ◌≡◌, refl, ap, ◌∙◌, sym, ◌==◌, flat_map, filter, lookup, get, push_all,
  extended, lookup-push_all, or_else, none,
}
use gwlint.Api.{LintContext, Object}
use gwlint.GatewayApi.Parent.{
  Parent, ObjectRef, ref_eq, ref_of, Listener, listeners_of, index_listeners, listeners_by_owner,
  listeners_for, select_section,
}

-- Every listener of the set, in the order of the objects.
abbrev pub declared : List Object → List Listener
declared objs = flat_map (λ obj. listeners_of obj.k8s_object) objs

-- Those that the named object declares.
abbrev pub declared_by : LintContext → ObjectRef → List Listener
declared_by ctx ref = filter (λ l. l.owner == ref) (declared ctx.objects)

push_all-append :
    (xs ys : List Listener) (m : List (ObjectRef × List Listener))
    → push_all (λ l. l.owner) (xs ++ ys) m
      ≡ push_all (λ l. l.owner) ys (push_all (λ l. l.owner) xs m)
push_all-append [] ys m = refl
push_all-append (x ∷ xs) ys m = push_all-append xs ys _

index_listeners-eq-push_all :
    (objs : List Object) (m : List (ObjectRef × List Listener))
    → index_listeners objs m ≡ push_all (λ l. l.owner) (declared objs) m
unfolding index_listeners
index_listeners-eq-push_all [] m = refl
index_listeners-eq-push_all (obj ∷ objs) m =
    index_listeners-eq-push_all objs _
    ∙ sym (push_all-append (listeners_of obj.k8s_object) (declared objs) m)

-- The index has an entry for exactly the objects that declare a listener, and the entry is all of
-- their listeners in order.
pub lookup-listeners_by_owner :
    (ctx : LintContext) (ref : ObjectRef)
    → lookup ref (listeners_by_owner ctx) ≡ extended none (declared_by ctx ref)
unfolding listeners_by_owner
lookup-listeners_by_owner ctx ref =
    ap (lookup ref) (index_listeners-eq-push_all ctx.objects [])
    ∙ lookup-push_all ref (λ l. l.owner) (declared ctx.objects) []

or_else-extended : (ls : List Listener) → or_else (extended none ls) [] ≡ ls
or_else-extended [] = refl
or_else-extended (l ∷ ls) = refl

pub get-listeners_by_owner :
    (ctx : LintContext) (ref : ObjectRef) → get ref (listeners_by_owner ctx) ≡ declared_by ctx ref
get-listeners_by_owner ctx ref =
    ap (λ o. or_else o []) (lookup-listeners_by_owner ctx ref)
    ∙ or_else-extended (declared_by ctx ref)

-- ListenersFor over the index is the selection from its object's own listeners.
pub listeners_for-listeners_by_owner :
    (ctx : LintContext) (parent : Parent)
    → listeners_for (listeners_by_owner ctx) parent
      ≡ select_section (declared_by ctx (ref_of parent)) parent.section
unfolding listeners_for
listeners_for-listeners_by_owner ctx parent =
    ap (λ ls. select_section ls parent.section) (get-listeners_by_owner ctx (ref_of parent))
