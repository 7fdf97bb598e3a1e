-- ===== src/GatewayApi/Hostnames/Serving.antt =====
-- The hostname comparison against what it means: a hostname that both sides serve.
use mathlib.Core.Path.{subst}
use mathlib.Core.Bool.{false≢true}
use gwlint.Prelude.Tests.{string_eq}
use gwlint.Prelude.Codes.{codes_beq, codes_beq_iff}
use gwlint.Prelude.{
  codes, ℕ, zero, suc, ◌-◌, ◌+◌, ◌≤◌, ◌<◌, String, Option, none, some, List, [], ◌∷◌, ◌++◌, Bool,
  true, false, ◌||◌, ◌==◌, length, any, any_iff, Any, Any-mono, ◌≡◌, ◌≢◌, ◌↔◌, ◌⊎◌, inl, inr, arith,
  ap, refl, sym, ◌∙◌, Bool-cases,
}
use gwlint.GatewayApi.Hostnames.{
  drop, is_wildcard, has_dns_suffix, wildcard_matches, hostnames_overlap, hostnames_intersect,
}

-- The host is one that a pattern stands for: at least one more character in front of a wildcard's
-- suffix, or the name itself.
abbrev pub Serves : List ℕ → List ℕ → Type 0
Serves pattern host =
    (is_wildcard pattern ≡ true) × ((p : List ℕ) × (p ≢ []) × (host ≡ p ++ drop 1 pattern))
    ⊎ (is_wildcard pattern ≡ false) × (host ≡ pattern)

length-append : (xs ys : List ℕ) → length (xs ++ ys) ≡ length xs + length ys
length-append [] ys = omega arith
length-append (x ∷ xs) ys = omega (arith, length-append xs ys)

drop-append : (p s : List ℕ) → drop (length p) (p ++ s) ≡ s
drop-append [] s = refl
drop-append (c ∷ p) s = drop-append p s

-- What is cut off in front of a tail.
front : (n : ℕ) (s : List ℕ) → n ≤ length s → (p : List ℕ) × (s ≡ p ++ drop n s) × (length p ≡ n)
front zero s h = ([], refl, refl)
front (suc n) [] h = absurd (omega arith)
front (suc n) (c ∷ s) h =
    let (p, e, k) = front n s (omega arith) in (c ∷ p, ap (λ t. c ∷ t) e, ap suc k)

-- `has_dns_suffix` finds a suffix, by any text in front of it.
has_dns_suffix_iff :
    (host suffix : List ℕ)
    → (has_dns_suffix host suffix ≡ true) ↔ ((p : List ℕ) × (host ≡ p ++ suffix))
unfolding has_dns_suffix
has_dns_suffix_iff host suffix = (found, holds)
  where
    found : (has_dns_suffix host suffix ≡ true) → (p : List ℕ) × (host ≡ p ++ suffix)
    found h =
        let n = length host - length suffix in
        let (p, e, _) = front n host (omega arith) in
        let same : codes_beq (drop n host) suffix ≡ true = ground arith in
        (p, e ∙ ap (λ t. p ++ t) ((codes_beq_iff (drop n host) suffix).0 same))

    holds : ((p : List ℕ) × (host ≡ p ++ suffix)) → has_dns_suffix host suffix ≡ true
    holds (p, e) =
        let long : length host ≡ length p + length suffix = ap length e ∙ length-append p suffix in
        let cut : length host - length suffix ≡ length p = omega arith in
        let rest : drop (length host - length suffix) host ≡ suffix =
          rw (cut, e) (drop-append p suffix) in
        let same = (codes_beq_iff _ suffix).1 rest in ground arith

-- Of two suffixes of one text, one is a suffix of the other.
suffix_total :
    (p q s t : List ℕ)
    → p ++ s ≡ q ++ t
    → ((r : List ℕ) × (s ≡ r ++ t)) ⊎ ((r : List ℕ) × (t ≡ r ++ s))
suffix_total [] q s t e = inl (q, e)
suffix_total (x ∷ p) [] s t e = inr (x ∷ p, sym e)
suffix_total (x ∷ p) (y ∷ q) s t e = suffix_total p q s t (cc)

wildcard_matches_iff :
    (wildcard host : List ℕ)
    → (wildcard_matches wildcard host ≡ true)
      ↔ ((p : List ℕ) × (p ≢ []) × (host ≡ p ++ drop 1 wildcard))
unfolding wildcard_matches
wildcard_matches_iff wildcard host = (found, holds)
  where
    found :
        wildcard_matches wildcard host ≡ true
        → (p : List ℕ) × (p ≢ []) × (host ≡ p ++ drop 1 wildcard)
    found h =
        let (p, e) = (has_dns_suffix_iff host (drop 1 wildcard)).0 (ground arith) in
        let longer : length (drop 1 wildcard) < length host = ground arith in
        (
          p,
          λ empty. absurd (omega (arith, ap length (e ∙ ap (λ q. q ++ drop 1 wildcard) empty))),
          e,
        )

    holds :
        ((p : List ℕ) × (p ≢ []) × (host ≡ p ++ drop 1 wildcard))
        → wildcard_matches wildcard host ≡ true
    holds ([], some_front, e) = absurd (some_front refl)
    holds (c ∷ p, some_front, e) =
        let suffix = (has_dns_suffix_iff host (drop 1 wildcard)).1 (c ∷ p, e) in
        let long = ap length e ∙ length-append (c ∷ p) (drop 1 wildcard) in
        let longer : length (drop 1 wildcard) < length host = omega arith in ground arith

-- Some host is served by both patterns.
abbrev pub Shared : List ℕ → List ℕ → Type 0
Shared a b = (host : List ℕ) × Serves a host × Serves b host

wild_overlap :
    (a b : List ℕ)
    → is_wildcard a ≡ true
    → is_wildcard b ≡ true
    → (has_dns_suffix (drop 1 a) (drop 1 b) || has_dns_suffix (drop 1 b) (drop 1 a) ≡ true)
      ↔ Shared a b
wild_overlap a b wa wb = (found, holds)
  where
    -- With one suffix inside the other, one more character in front is a host of both.
    shared :
        (s t : List ℕ)
        → ((p : List ℕ) × (s ≡ p ++ t))
        → (p : List ℕ) × (q : List ℕ) × (p ≢ []) × (q ≢ []) × (p ++ s ≡ q ++ t)
    shared s t (p, e) = (b'x' ∷ [], b'x' ∷ p, λ h. cc, λ h. cc, ap (λ r. b'x' ∷ r) e)

    found :
        has_dns_suffix (drop 1 a) (drop 1 b) || has_dns_suffix (drop 1 b) (drop 1 a) ≡ true
        → Shared a b
    found h = elim (Bool-cases (has_dns_suffix (drop 1 a) (drop 1 b))) [
      | inl here ↦
          let (p, q, some_p, some_q, e) = shared _ _ ((has_dns_suffix_iff _ _).0 here) in
          (p ++ drop 1 a, inl (wa, (p, some_p, refl)), inl (wb, (q, some_q, e)))
      | inr other ↦
          let there : has_dns_suffix (drop 1 b) (drop 1 a) ≡ true = rw other at h in
          let (q, p, some_q, some_p, e) = shared _ _ ((has_dns_suffix_iff _ _).0 there) in
          (q ++ drop 1 b, inl (wa, (p, some_p, e)), inl (wb, (q, some_q, refl)))
    ]

    joined :
        (p q : List ℕ)
        → p ++ drop 1 a ≡ q ++ drop 1 b
        → has_dns_suffix (drop 1 a) (drop 1 b) || has_dns_suffix (drop 1 b) (drop 1 a) ≡ true
    joined p q e = elim (suffix_total p q (drop 1 a) (drop 1 b) e) [
      | inl r ↦ let h = (has_dns_suffix_iff _ _).1 r in ground arith
      | inr r ↦ let h = (has_dns_suffix_iff _ _).1 r in ground arith
    ]

    holds :
        Shared a b
        → has_dns_suffix (drop 1 a) (drop 1 b) || has_dns_suffix (drop 1 b) (drop 1 a) ≡ true
    holds (host, inl (_, (p, _, e)), inl (_, (q, _, k))) = joined p q (sym e ∙ k)
    holds (host, inr (no_wild, _), _) = cc
    holds (host, inl _, inr (no_wild, _)) = cc

-- With a wildcard on one side alone the shared host is the other side's name.
half_overlap :
    (a b : List ℕ)
    → is_wildcard a ≡ true
    → is_wildcard b ≡ false
    → (wildcard_matches a b ≡ true) ↔ Shared a b
half_overlap a b wa wb = (λ h. (b, inl (wa, (wildcard_matches_iff a b).0 h), inr (wb, refl)), holds)
  where
    holds : Shared a b → wildcard_matches a b ≡ true
    holds (host, inl (_, (p, some_p, e)), inr (_, k)) =
        (wildcard_matches_iff a b).1 (p, some_p, sym k ∙ e)
    holds (host, inr (no_wild, _), _) = cc
    holds (host, inl _, inl (wild, _)) = cc

Shared-sym : {a b : List ℕ} → Shared a b → Shared b a
Shared-sym (host, s, t) = (host, t, s)

plain_overlap :
    (a b : List ℕ)
    → is_wildcard a ≡ false
    → is_wildcard b ≡ false
    → (codes_beq a b ≡ true) ↔ Shared a b
plain_overlap a b wa wb = (λ h. (b, inr (wa, sym ((codes_beq_iff a b).0 h)), inr (wb, refl)), holds)
  where
    holds : Shared a b → codes_beq a b ≡ true
    holds (host, inr (_, e), inr (_, k)) = (codes_beq_iff a b).1 (sym e ∙ k)
    holds (host, inl (wild, _), _) = cc
    holds (host, inr _, inl (wild, _)) = cc

-- Two hostnames overlap exactly when there is a host that both of them serve.
pub hostnames_overlap_iff : (a b : List ℕ) → (hostnames_overlap a b ≡ true) ↔ Shared a b
unfolding hostnames_overlap
hostnames_overlap_iff a b = elim (Bool-cases (is_wildcard a)) [
  | inl wa ↦ elim (Bool-cases (is_wildcard b)) [
    | inl wb ↦ by_test (rw (wa, wb)) (wild_overlap a b wa wb)
    | inr wb ↦ by_test (rw (wa, wb)) (half_overlap a b wa wb)
  ]
  | inr wa ↦ elim (Bool-cases (is_wildcard b)) [
    | inl wb ↦
        let (to, from) = half_overlap b a wb wa in
        by_test (rw (wa, wb)) (λ h. Shared-sym (to h), λ s. from (Shared-sym s))
    | inr wb ↦ by_test (rw (wa, wb)) (plain_overlap a b wa wb)
  ]
]
  where
    by_test :
        {t : Bool}
        → hostnames_overlap a b ≡ t
        → (t ≡ true) ↔ Shared a b
        → (hostnames_overlap a b ≡ true) ↔ Shared a b
    by_test e h = (λ k. h.0 (sym e ∙ k), λ s. e ∙ h.1 s)

any_overlap_iff :
    (h : String) (rs : List String)
    → (any (λ r. hostnames_overlap (codes h) (codes r)) rs ≡ true)
      ↔ Any (λ r. Shared (codes h) (codes r)) rs
any_overlap_iff h rs = (
  λ k. Any-mono (λ r. (hostnames_overlap_iff (codes h) (codes r)).0) rs ((any_iff _ rs).0 k),
  λ k. (any_iff _ rs).1 (Any-mono (λ r. (hostnames_overlap_iff (codes h) (codes r)).1) rs k),
)

-- One side sets no hostname, or the listener and one of the route's hostnames serve a host in
-- common.
abbrev pub CanShare : Option String → List String → Type 0
CanShare hostname route_hostnames =
    (hostname ≡ none)
    ⊎ (hostname ≡ some "")
    ⊎ (route_hostnames ≡ [])
    ⊎ ((h : String) × (hostname ≡ some h) × Any (λ r. Shared (codes h) (codes r)) route_hostnames)

-- HostnamesIntersect holds exactly when the listener or the route sets no hostname, or the
-- listener's hostname and one of the route's serve a host in common.
pub hostnames_intersect_iff :
    (hostname : Option String) (route_hostnames : List String)
    → (hostnames_intersect hostname route_hostnames ≡ true) ↔ CanShare hostname route_hostnames
unfolding hostnames_intersect
hostnames_intersect_iff none rs = (λ _. inl refl, λ _. refl)
hostnames_intersect_iff (some h) [] = (λ _. inr (inr (inl refl)), λ _. ground arith)
hostnames_intersect_iff (some h) (r ∷ rs) = elim (Bool-cases (h == "")) [
  | inl e ↦ (λ _. inr (inl (ap some ((string_eq.beq_iff h "").0 e))), λ _. rw e)
  | inr e ↦ (
    λ k. inr (inr (inr (h, refl, (any_overlap_iff h (r ∷ rs)).0 (rw e at k)))),
    elim [
      | inl absent ↦ cc
      | inr (inl empty) ↦ absurd (false≢true (sym e ∙ (string_eq.beq_iff h "").1 (cc)))
      | inr (inr (inl no_hosts)) ↦ cc
      | inr (inr (inr (x, same, k))) ↦
          let here : Any (λ y. Shared (codes h) (codes y)) (r ∷ rs) =
            subst (λ z. Any (λ y. Shared (codes z) (codes y)) (r ∷ rs)) (cc) k in
          rw e ((any_overlap_iff h (r ∷ rs)).1 here)
    ],
  )
]
