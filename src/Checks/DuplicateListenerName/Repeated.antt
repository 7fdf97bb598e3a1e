-- ===== src/Checks/DuplicateListenerName/Repeated.antt =====
-- Which Gateways and ListenerSets duplicate-listener-name reports.
use gwlint.Prelude.{
  suc, String, List, [], ◌∷◌, ◌++◌, true, false, ◌==◌, ◌≡◌, ◌↔◌, inl, inr, refl, sym, ap, ◌∙◌,
  arith, is_empty, length, map, filter, Any, push, push_all, sort_strings, str_less, Counts,
  increment, iff_trans, Bool-cases,
}
use gwlint.Prelude.Tests.{string_eq, ltb}
use gwlint.Prelude.Pairs.{several, SomePair}
use gwlint.Prelude.Nonempty.{Reports, Reports-map, Reports-sort, Reports-filter}
use gwlint.Prelude.Index.Entries.{several_entries}
use gwlint.Api.{LintContext, Object}
use gwlint.GatewayApi.Parent.{Listener, listeners_of}
use gwlint.GatewayApi.Parent.Entries.{seen_entries, listeners_of-SomePair}
use gwlint.Checks.DuplicateListenerName.{
  count_listeners, duplicated, judge, judge_listeners, check_func,
}

abbrev sizes : List (String × List Listener) → Counts
sizes m = map (λ entry. (entry.0, length entry.1)) m

length-snoc {ℓ} : {A : Type ℓ} (xs : List A) (x : A) → length (xs ++ x ∷ []) ≡ suc (length xs)
length-snoc [] x = refl
length-snoc (y ∷ xs) x = ap suc (length-snoc xs x)

increment-sizes :
    (name : String) (l : Listener) (m : List (String × List Listener))
    → increment name (sizes m) ≡ sizes (push name l m)
increment-sizes name l [] = refl
increment-sizes name l ((j, ls) ∷ m) = elim (Bool-cases (j == name)) [
  | inl same ↦ rw same (ap (λ n. (j, n) ∷ sizes m) (sym (length-snoc ls l)))
  | inr other ↦ rw other (ap (λ rest. (j, length ls) ∷ rest) (increment-sizes name l m))
]

count_listeners-sizes :
    (ls : List Listener) (m : List (String × List Listener))
    → count_listeners ls (sizes m) ≡ sizes (push_all (λ l. l.name) ls m)
unfolding count_listeners
count_listeners-sizes [] m = refl
count_listeners-sizes (l ∷ ls) m =
    ap (count_listeners ls) (increment-sizes l.name l m)
    ∙ count_listeners-sizes ls (push l.name l m)

several_counted : (ls : List Listener) → ltb 1 (length ls) ≡ several ls
several_counted [] = refl
several_counted (l ∷ []) = refl
several_counted (l ∷ m ∷ ls) = ground arith

counted_iff :
    (m : List (String × List Listener))
    → Any (λ c. ltb 1 c.1 ≡ true) (sizes m) ↔ Any (λ entry. several entry.1 ≡ true) m
counted_iff [] = (λ h. h, λ h. h)
counted_iff ((name, ls) ∷ m) =
    let (forth, back) = counted_iff m in
    (
      elim [ inl h ↦ inl (sym (several_counted ls) ∙ h) | inr h ↦ inr (forth h) ],
      elim [ inl h ↦ inl (several_counted ls ∙ h) | inr h ↦ inr (back h) ],
    )

judge_iff :
    (owner : Listener) (ls : List Listener)
    → Reports (judge owner (count_listeners ls [])) ↔ SomePair (λ l m. l.name ≡ m.name) ls
unfolding judge duplicated sort_strings
judge_iff owner ls = rw (count_listeners-sizes ls []) (
    iff_trans (Reports-map _ (duplicated (sizes (push_all (λ l. l.name) ls [])))) (
      iff_trans (Reports-sort str_less _) (
        iff_trans (Reports-map _ (filter _ (sizes (push_all (λ l. l.name) ls [])))) (
          iff_trans (Reports-filter (λ c. ltb 1 c.1) _) (
            iff_trans (counted_iff (push_all (λ l. l.name) ls []))
              (several_entries (λ l. l.name) ls))))))

-- duplicate-listener-name reports something of a v1 Gateway or a ListenerSet exactly when two of
-- its listeners have the same name. Of any other object, a v1beta1 Gateway with such listeners
-- included, it reports nothing.
pub duplicate_listener_iff :
    (ctx : LintContext) (object : Object)
    → (is_empty (check_func ctx object) ≡ false)
      ↔ SomePair (λ l m. l.name ≡ m.name) (seen_entries object.k8s_object)
unfolding check_func
duplicate_listener_iff ctx object =
    iff_trans (judged (listeners_of object.k8s_object))
      (listeners_of-SomePair _ _ (λ kind owner l m. (λ h. h, λ h. h)) object.k8s_object)
  where
    judged :
        (ls : List Listener) → Reports (judge_listeners ls) ↔ SomePair (λ l m. l.name ≡ m.name) ls
    judged [] = (λ h. cc, λ h. absurd h)
    judged (l ∷ []) = (λ h. cc, elim [ inl h ↦ absurd h | inr h ↦ absurd h ])
    judged (l ∷ m ∷ ls) = judge_iff l (l ∷ m ∷ ls)
