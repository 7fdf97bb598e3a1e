-- ===== src/Checks/ConflictingListeners/Clash.antt =====
-- Which Gateways and ListenerSets conflicting-listeners reports.
use mathlib.Core.Path.{subst}
use gwlint.Prelude.{
  String, some, List, [], ◌∷◌, true, false, ◌==◌, ◌≡◌, ◌≢◌, ◌↔◌, ◌⊎◌, inl, inr, refl, sym, ap, ◌∙◌,
  or_else, is_empty, filter, filter_map, Any, Any-mono, Any-holds, filter_map_nonempty, get,
  push_all, ℤ, int_eq, int_less, str_less, sort_strings, Diagnostic, iff_trans, Option-cases,
  Bool-cases,
}
use gwlint.Prelude.Tests.{string_eq}
use gwlint.Prelude.Pairs.{
  several, SomePair, SomePair-mono, SomePair-or, SomePair-witness, SomePair-Any, paired_apart,
  filter-SomePair, several_iff,
}
use gwlint.Prelude.Nonempty.{
  Reports, Reports-append, Reports-map, Reports-flat_map, Reports-sort, Reports-filter,
}
use gwlint.Prelude.Distinct.{Unrepeated, Unrepeated-SomePair, sort-Unrepeated, sort-Any}
use gwlint.Prelude.Index.Entries.{keys-Any, push_all-Unrepeated, get-push_all, several_entries}
use gwlint.Api.{LintContext, Object, ListenerEntry}
use gwlint.GatewayApi.Parent.{ObjectRef, Listener, listener_of, listeners_of}
use gwlint.GatewayApi.Parent.Entries.{seen_entries, listeners_of-SomePair}
use gwlint.Checks.ConflictingListeners.{
  key_of, listener_key_eq, key_less, protocols_conflict, repeated_keys, indistinct_listeners,
  judge_pair, judge_pairs, protocols_of, protocol_conflicts, judge_group, ports_of, judge,
  judge_listeners, check_func,
}
use gwlint.Checks.ConflictingListeners.Protocols.{Contend, Contend-symm, protocols_conflict_iff}

-- Two protocols, with a reason why they conflict.
Differing : Listener → Listener → Type 0
Differing l m = (l.protocol ≢ m.protocol) × Contend l.protocol m.protocol

abbrev Indistinct : Listener → Listener → Type 0
Indistinct l m = key_of l ≡ key_of m

-- Both claim one port, and either their protocols and hostnames are the same or their protocols
-- differ and cannot share it.
abbrev Clash : Listener → Listener → Type 0
Clash l m = (l.port ≡ m.port) × (Indistinct l m ⊎ Differing l m)

module _ (owner : Listener) (port : ℤ) (group : List Listener) where
  same_key_iff : Reports (indistinct_listeners owner port group) ↔ SomePair Indistinct group
  unfolding indistinct_listeners repeated_keys
  same_key_iff = iff_trans (Reports-map _ (repeated_keys group)) (
      iff_trans (Reports-sort key_less _) (
        iff_trans (Reports-map _ (filter _ (push_all key_of group []))) (
          iff_trans (Reports-filter (λ entry. several entry.1) (push_all key_of group []))
            (several_entries key_of group))))

  pairs_iff : (ps : List String) → Reports (judge_pairs owner port group ps) ↔ SomePair Contend ps
  unfolding judge_pairs
  pairs_iff [] = (λ h. cc, λ h. absurd h)
  pairs_iff (p ∷ ps) =
      let (split, join) =
        Reports-append (filter_map (judge_pair owner port group p) ps)
          (judge_pairs owner port group ps) in
      let (later, before) = pairs_iff ps in
      let (found, kept) =
        filter_map_nonempty (judge_pair owner port group p) (Contend p) (reason p) ps in
      (
        λ h. elim (split h) [ inl k ↦ inl (found k) | inr k ↦ inr (later k) ],
        elim [ inl k ↦ join (inl (kept k)) | inr k ↦ join (inr (before k)) ],
      )
    where
      reported :
          (p q : String)
          → ((d : Diagnostic) × (judge_pair owner port group p q ≡ some d))
            ↔ ((r : String) × (protocols_conflict p q ≡ some r))
      reported p q = elim (Option-cases (protocols_conflict p q)) [
        | inl e ↦ rw (judge_pair, e) (λ (d, k). cc, λ (r, k). cc)
        | inr (r, e) ↦ rw (judge_pair, e) (λ _. (r, refl), λ _. (_, refl))
      ]

      reason :
          (p q : String)
          → ((d : Diagnostic) × (judge_pair owner port group p q ≡ some d)) ↔ Contend p q
      reason p q = iff_trans (reported p q) (protocols_conflict_iff p q)

  conflicts_iff : Reports (protocol_conflicts owner port group) ↔ SomePair Differing group
  unfolding protocol_conflicts protocols_of Differing sort_strings
  conflicts_iff = iff_trans (pairs_iff (protocols_of group)) (
      iff_trans (Unrepeated-SomePair Contend Contend-symm (protocols_of group) fresh) (
        iff_trans (both found) (
          λ h.
              paired_apart Differing
                (λ l m (n, c). (λ eq. n (sym eq), Contend-symm l.protocol m.protocol c))
                (λ l (n, _). n refl) group h,
          λ h. SomePair-Any _ group h,
        )))
    where
      fresh : Unrepeated (protocols_of group)
      fresh = sort-Unrepeated str_less _ (push_all-Unrepeated (λ l. l.protocol) group [] tt)

      found : (P : String → Type 0) → Any P (protocols_of group) ↔ Any (λ l. P l.protocol) group
      found P = iff_trans (sort-Any str_less P _) (keys-Any (λ l. l.protocol) group P)

      both :
          ((P : String → Type 0) → Any P (protocols_of group) ↔ Any (λ l. P l.protocol) group)
          → Any (λ p. Any (λ q. (p ≢ q) × Contend p q) (protocols_of group)) (protocols_of group)
            ↔ Any
                (λ l. Any (λ m. (l.protocol ≢ m.protocol) × Contend l.protocol m.protocol) group)
                group
      both f = (
        λ h.
            Any-mono (λ l k. (f (λ q. (l.protocol ≢ q) × Contend l.protocol q)).0 k) group
              ((f _).0 h),
        λ h.
            (f (λ p. Any (λ q. (p ≢ q) × Contend p q) (protocols_of group))).1
              (Any-mono (λ l k. (f (λ q. (l.protocol ≢ q) × Contend l.protocol q)).1 k) group h),
      )

  group_iff :
      Reports (judge_group owner port group)
      ↔ SomePair (λ l m. Indistinct l m ⊎ Differing l m) group
  unfolding judge_group
  group_iff =
      let (split, join) = SomePair-or Indistinct Differing group in
      let (apart, together) =
        Reports-append (indistinct_listeners owner port group)
          (protocol_conflicts owner port group) in
      elim (Bool-cases (several group)) [
        | inl e ↦ rw e (
          λ h.
              join (elim (apart h) [
                | inl k ↦ inl (same_key_iff.0 k)
                | inr k ↦ inr (conflicts_iff.0 k)
              ]),
          λ h.
              together (elim (split h) [
                | inl k ↦ inl (same_key_iff.1 k)
                | inr k ↦ inr (conflicts_iff.1 k)
              ]),
        )
        | inr e ↦ rw e (
          λ h. cc,
          λ h. (let more = (several_iff group).1 (SomePair-mono (λ l m _. tt) group h) in cc),
        )
      ]

judge_iff :
    (owner : Listener) (listeners : List Listener)
    → Reports (judge owner listeners) ↔ SomePair Clash listeners
unfolding judge ports_of
judge_iff owner listeners = iff_trans (Reports-flat_map _ (ports_of listeners)) (
    iff_trans (sort-Any int_less _ _)
      (iff_trans (keys-Any (λ l. l.port) listeners _) (forth, back)))
  where
    at : ℤ → List Listener
    at port = get port (push_all (λ l. l.port) listeners [])

    group : (port : ℤ) → at port ≡ filter (λ l. l.port == port) listeners
    group port = get-push_all (λ l. l.port) listeners port

    clashing :
        (port : ℤ)
        → Reports (judge_group owner port (at port))
          ↔ SomePair
              (λ l m.
                ((l.port == port) ≡ true)
                × ((m.port == port) ≡ true)
                × (Indistinct l m ⊎ Differing l m))
              listeners
    clashing port = iff_trans (group_iff owner port (at port)) (
        subst
          (λ ls.
            SomePair (λ l m. Indistinct l m ⊎ Differing l m) ls
            ↔ SomePair
                (λ l m.
                  ((l.port == port) ≡ true)
                  × ((m.port == port) ≡ true)
                  × (Indistinct l m ⊎ Differing l m))
                listeners)
          (sym (group port)) (filter-SomePair _ _ listeners))

    forth :
        Any (λ l. Reports (judge_group owner l.port (at l.port))) listeners
        → SomePair Clash listeners
    forth h =
        let (l, reports) = Any-holds listeners h in
        SomePair-mono
          (λ a b (x, y, k).
            ((int_eq.beq_iff a.port l.port).0 x ∙ sym ((int_eq.beq_iff b.port l.port).0 y), k))
          listeners ((clashing l.port).0 reports)

    back :
        SomePair Clash listeners
        → Any (λ l. Reports (judge_group owner l.port (at l.port))) listeners
    back h =
        let (port, pair) =
          SomePair-witness
            (λ port l m. (l.port ≡ port) × (m.port ≡ port) × (Indistinct l m ⊎ Differing l m))
            listeners
            (SomePair-mono (λ l m (same, k). (l.port, (refl, sym same, k))) listeners h) in
        let reports = (clashing port).1 (
          SomePair-mono
            (λ l m (x, y, k).
              ((int_eq.beq_iff l.port port).1 x, (int_eq.beq_iff m.port port).1 y, k))
            listeners pair) in
        Any-mono
          (λ l others.
            let found = Any-holds listeners others in
            subst (λ p. Reports (judge_group owner p (at p))) (sym found.1.0) reports)
          listeners (SomePair-Any _ listeners pair)

-- The same of the entries that an object writes down: one port, and either the same protocol and
-- the same hostname, none being as good as an empty one, or protocols that differ and contend.
abbrev pub Clashing : ListenerEntry → ListenerEntry → Type 0
Clashing l m =
    (l.port ≡ m.port)
    × ((l.protocol ≡ m.protocol) × (or_else l.hostname "" ≡ or_else m.hostname "")
        ⊎ (l.protocol ≢ m.protocol) × Contend l.protocol m.protocol)

Clash-Clashing :
    (kind : String) (owner : ObjectRef) (l m : ListenerEntry)
    → Clash (listener_of kind owner l) (listener_of kind owner m) ↔ Clashing l m
unfolding Differing
Clash-Clashing kind owner l m = (
  λ (port, h). (
    port,
    elim h [
      | inl same ↦ inl (ap (λ k. k.protocol) same, ap (λ k. k.hostname) same)
      | inr other ↦ inr other
    ],
  ),
  λ (port, h). (
    port,
    elim h [
      | inl (p, n) ↦ inl (λ i. record { protocol = p i; hostname = n i })
      | inr other ↦ inr other
    ],
  ),
)

-- conflicting-listeners reports something of a v1 Gateway or a ListenerSet exactly when two of its
-- listeners claim one port and either have the same protocol and hostname, or have different
-- protocols that both run over TCP and do not both start with a TLS handshake. Of any other object,
-- a v1beta1 Gateway with such listeners included, it reports nothing.
pub conflicting_listeners_iff :
    (ctx : LintContext) (object : Object)
    → (is_empty (check_func ctx object) ≡ false)
      ↔ SomePair Clashing (seen_entries object.k8s_object)
unfolding check_func
conflicting_listeners_iff ctx object =
    iff_trans (judged (listeners_of object.k8s_object))
      (listeners_of-SomePair Clash Clashing Clash-Clashing object.k8s_object)
  where
    judged : (ls : List Listener) → Reports (judge_listeners ls) ↔ SomePair Clash ls
    judged [] = (λ h. cc, λ h. absurd h)
    judged (l ∷ []) = (λ h. cc, elim [ inl h ↦ absurd h | inr h ↦ absurd h ])
    judged (l ∷ m ∷ ls) = judge_iff l (l ∷ m ∷ ls)
