-- ===== src/GatewayApi/Attach/Kinds.antt =====
-- Which kinds of route a listener's protocol carries: RouteKindsFor of pkg/gatewayapi/attach.go.
use gwlint.Prelude.{
  String, List, Bool, true, false, if◌then◌else◌, refl, ◌≡◌, ◌↔◌, ◌⊎◌, inl, inr, is_empty, contains,
  arith,
}
use gwlint.Prelude.Tests.{string_eq}
use gwlint.ObjectKinds
use gwlint.GatewayApi.Attach.{route_kinds_for}

-- One of the protocols of the Gateway API itself.
pub IsStandard : String → Type 0
IsStandard protocol =
    (protocol ≡ ObjectKinds.http_protocol)
    ⊎ (protocol ≡ ObjectKinds.https_protocol)
    ⊎ (protocol ≡ ObjectKinds.tls_protocol)
    ⊎ (protocol ≡ ObjectKinds.tcp_protocol)
    ⊎ (protocol ≡ ObjectKinds.udp_protocol)

-- The protocol carries the kind: HTTP and HTTPS carry HTTPRoute and GRPCRoute, and TLS, TCP and UDP
-- each the kind that has its name.
pub Bears : String → String → Type 0
Bears protocol kind =
    ((protocol ≡ ObjectKinds.http_protocol) ⊎ (protocol ≡ ObjectKinds.https_protocol))
      × ((kind ≡ ObjectKinds.http_route) ⊎ (kind ≡ ObjectKinds.grpc_route))
    ⊎ (protocol ≡ ObjectKinds.tls_protocol) × (kind ≡ ObjectKinds.tls_route)
    ⊎ (protocol ≡ ObjectKinds.tcp_protocol) × (kind ≡ ObjectKinds.tcp_route)
    ⊎ (protocol ≡ ObjectKinds.udp_protocol) × (kind ≡ ObjectKinds.udp_route)

pub route_kinds_for-IsStandard :
    (protocol : String) → (is_empty (route_kinds_for protocol) ≡ false) ↔ IsStandard protocol
unfolding route_kinds_for IsStandard
route_kinds_for-IsStandard protocol = ground (
  arith,
  string_eq.beq_iff protocol ObjectKinds.http_protocol,
  string_eq.beq_iff protocol ObjectKinds.https_protocol,
  string_eq.beq_iff protocol ObjectKinds.tls_protocol,
  string_eq.beq_iff protocol ObjectKinds.tcp_protocol,
  string_eq.beq_iff protocol ObjectKinds.udp_protocol,
)

contains-if :
    (b : Bool) (xs ys : List String) (kind : String)
    → contains (if b then xs else ys) kind ≡ (if b then contains xs kind else contains ys kind)
contains-if true xs ys kind = refl
contains-if false xs ys kind = refl

carried :
    (protocol kind : String) → contains (route_kinds_for protocol) kind ≡ true → Bears protocol kind
unfolding route_kinds_for Bears
carried protocol kind =
    rw (contains-if, contains-if, contains-if, contains-if)
      (λ h. ground (
        arith,
        string_eq.beq_iff protocol ObjectKinds.http_protocol,
        string_eq.beq_iff protocol ObjectKinds.https_protocol,
        string_eq.beq_iff protocol ObjectKinds.tls_protocol,
        string_eq.beq_iff protocol ObjectKinds.tcp_protocol,
        string_eq.beq_iff protocol ObjectKinds.udp_protocol,
        string_eq.beq_iff ObjectKinds.http_route kind,
        string_eq.beq_iff ObjectKinds.grpc_route kind,
        string_eq.beq_iff ObjectKinds.tls_route kind,
        string_eq.beq_iff ObjectKinds.tcp_route kind,
        string_eq.beq_iff ObjectKinds.udp_route kind,
      ))

pub route_kinds_for-Bears :
    (protocol kind : String)
    → (contains (route_kinds_for protocol) kind ≡ true) ↔ Bears protocol kind
unfolding route_kinds_for Bears
route_kinds_for-Bears protocol kind = (
  carried protocol kind,
  elim [
    | inl (inl p, inl k) ↦ rw (p, k) refl
    | inl (inl p, inr k) ↦ rw (p, k) refl
    | inl (inr p, inl k) ↦ rw (p, k) refl
    | inl (inr p, inr k) ↦ rw (p, k) refl
    | inr (inl (p, k)) ↦ rw (p, k) refl
    | inr (inr (inl (p, k))) ↦ rw (p, k) refl
    | inr (inr (inr (p, k))) ↦ rw (p, k) refl
  ],
)
