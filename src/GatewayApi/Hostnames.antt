-- ===== src/GatewayApi/Hostnames.antt =====
-- pkg/gatewayapi/attach.go, the hostname half: a listener's hostname against a route's.
-- A Go string is read here as the list of its code points. The functions only compare, measure and
-- cut at an ASCII byte, so on text that is valid UTF-8, as decoded manifests are, they give the
-- same answers as on bytes.
pub mod Serving
use gwlint.Prelude.{
  codes, ℕ, zero, suc, ◌-◌, String, Option, none, some, List, [], ◌∷◌, Bool, true, false, ◌&&◌,
  ◌||◌, ◌==◌, is_empty, any, length, ltb, if◌then◌else◌, not, Eq, ◌≡◌, ◌↔◌, arith, ap, refl,
}
use gwlint.Prelude.Codes.{codes_beq}
use gwlint.Prelude.Tests.{nat_eq, string_eq}

-- s[n:]
abbrev pub drop : ℕ → List ℕ → List ℕ
drop zero s = s
drop (suc n) [] = []
drop (suc n) (c ∷ s) = drop n s

abbrev pub is_wildcard : List ℕ → Bool
is_wildcard (a ∷ b ∷ c ∷ _) = a == b'*' && b == b'.'
is_wildcard _ = false

unfoldable pub has_dns_suffix : List ℕ → List ℕ → Bool
has_dns_suffix host suffix =
    not (ltb (length host) (length suffix))
    && codes_beq (drop (length host - length suffix) host) suffix

unfoldable pub wildcard_matches : List ℕ → List ℕ → Bool
unfolding has_dns_suffix
wildcard_matches wildcard host =
    let suffix = drop 1 wildcard in ltb (length suffix) (length host) && has_dns_suffix host suffix

unfoldable pub hostnames_overlap : List ℕ → List ℕ → Bool
unfolding wildcard_matches
hostnames_overlap a b =
    if is_wildcard a && is_wildcard b
    then has_dns_suffix (drop 1 a) (drop 1 b) || has_dns_suffix (drop 1 b) (drop 1 a)
    else if is_wildcard a
    then wildcard_matches a b
    else if is_wildcard b
    then wildcard_matches b a
    else codes_beq a b

abbrev is_unset : Option String → Bool
is_unset none = true
is_unset (some h) = h == ""

-- Listener.HostnamesIntersect, of the listener's hostname and the route's.
unfoldable pub hostnames_intersect : Option String → List String → Bool
unfolding hostnames_overlap
hostnames_intersect none route_hostnames = true
hostnames_intersect (some hostname) route_hostnames =
    if hostname == "" || is_empty route_hostnames
    then true
    else any (λ h. hostnames_overlap (codes hostname) (codes h)) route_hostnames
