-- ===== src/Checks/ConflictingListeners/Protocols.antt =====
-- Which protocols cannot share a port.
use gwlint.Prelude.{
  String, Option, none, some, ◌≡◌, ◌≢◌, ◌↔◌, ◌⊎◌, inl, inr, differs_iff, refl, arith,
}
use gwlint.Prelude.Tests.{string_eq}
use gwlint.ObjectKinds
use gwlint.Checks.ConflictingListeners.{
  ProtocolClass, unknown, plaintext, tls, raw_tcp, udp, class_of, classes_conflict,
  protocols_conflict,
}

-- A protocol that runs over TCP.
abbrev pub TcpBased : String → Type 0
TcpBased p =
    (p ≡ ObjectKinds.http_protocol)
    ⊎ (p ≡ ObjectKinds.https_protocol)
    ⊎ (p ≡ ObjectKinds.tls_protocol)
    ⊎ (p ≡ ObjectKinds.tcp_protocol)

-- A protocol whose connections start with a TLS handshake.
abbrev pub Secured : String → Type 0
Secured p = (p ≡ ObjectKinds.https_protocol) ⊎ (p ≡ ObjectKinds.tls_protocol)

-- Neither can be told from the other on one port.
abbrev pub Contend : String → String → Type 0
Contend p q = TcpBased p × TcpBased q × ¬ (Secured p × Secured q)

class_tcp :
    (p : String)
    → TcpBased p ↔ ((class_of p ≡ plaintext) ⊎ (class_of p ≡ tls) ⊎ (class_of p ≡ raw_tcp))
unfolding class_of
class_tcp p = ground (
  arith,
  string_eq.beq_iff p ObjectKinds.http_protocol,
  string_eq.beq_iff p ObjectKinds.https_protocol,
  string_eq.beq_iff p ObjectKinds.tls_protocol,
  string_eq.beq_iff p ObjectKinds.tcp_protocol,
  string_eq.beq_iff p ObjectKinds.udp_protocol,
)

http_https : ObjectKinds.http_protocol ≢ ObjectKinds.https_protocol
http_https = (differs_iff ObjectKinds.http_protocol ObjectKinds.https_protocol).0 refl

http_tls : ObjectKinds.http_protocol ≢ ObjectKinds.tls_protocol
http_tls = (differs_iff ObjectKinds.http_protocol ObjectKinds.tls_protocol).0 refl

class_tls : (p : String) → Secured p ↔ (class_of p ≡ tls)
unfolding class_of
class_tls p = (forth, back)
  where
    forth : Secured p → class_of p ≡ tls
    forth (inl e) = rw e refl
    forth (inr e) = rw e refl

    back : class_of p ≡ tls → Secured p
    back h = ground (
      arith,
      string_eq.beq_iff p ObjectKinds.http_protocol,
      string_eq.beq_iff p ObjectKinds.https_protocol,
      string_eq.beq_iff p ObjectKinds.tls_protocol,
    )

nothing : {P : Type 0} {o : Option String} → o ≡ none → ¬ P → ((r : String) × (o ≡ some r)) ↔ P
nothing eq never = (λ (r, e). cc, λ p. absurd (never p))

something : {P : Type 0} (r : String) → P → ((s : String) × (some r ≡ some s)) ↔ P
something r p = (λ _. p, λ _. (r, refl))

-- The class of a protocol that runs over TCP.
abbrev OverTcp : ProtocolClass → Type 0
OverTcp a = (a ≡ plaintext) ⊎ (a ≡ tls) ⊎ (a ≡ raw_tcp)

classes_iff :
    (a b : ProtocolClass)
    → ((reason : String) × (classes_conflict a b ≡ some reason))
      ↔ (OverTcp a × OverTcp b × ¬ ((a ≡ tls) × (b ≡ tls)))
unfolding classes_conflict
classes_iff unknown unknown = nothing refl (ground arith)
classes_iff unknown plaintext = nothing refl (ground arith)
classes_iff unknown tls = nothing refl (ground arith)
classes_iff unknown raw_tcp = nothing refl (ground arith)
classes_iff unknown udp = nothing refl (ground arith)
classes_iff plaintext unknown = nothing refl (ground arith)
classes_iff plaintext plaintext = something _ (ground arith)
classes_iff plaintext tls = something _ (ground arith)
classes_iff plaintext raw_tcp = something _ (ground arith)
classes_iff plaintext udp = nothing refl (ground arith)
classes_iff tls unknown = nothing refl (ground arith)
classes_iff tls plaintext = something _ (ground arith)
classes_iff tls tls = nothing refl (ground arith)
classes_iff tls raw_tcp = something _ (ground arith)
classes_iff tls udp = nothing refl (ground arith)
classes_iff raw_tcp unknown = nothing refl (ground arith)
classes_iff raw_tcp plaintext = something _ (ground arith)
classes_iff raw_tcp tls = something _ (ground arith)
classes_iff raw_tcp raw_tcp = something _ (ground arith)
classes_iff raw_tcp udp = nothing refl (ground arith)
classes_iff udp unknown = nothing refl (ground arith)
classes_iff udp plaintext = nothing refl (ground arith)
classes_iff udp tls = nothing refl (ground arith)
classes_iff udp raw_tcp = nothing refl (ground arith)
classes_iff udp udp = nothing refl (ground arith)

-- Two protocols have a reason to conflict exactly when both run over TCP and not both of them
-- start with a TLS handshake.
pub protocols_conflict_iff :
    (p q : String) → ((reason : String) × (protocols_conflict p q ≡ some reason)) ↔ Contend p q
unfolding protocols_conflict
protocols_conflict_iff p q =
    let classes = classes_iff (class_of p) (class_of q) in
    (
      λ h.
          let (a, b, n) = classes.0 h in
          (
            (class_tcp p).1 a,
            (class_tcp q).1 b,
            λ (s, t). n ((class_tls p).0 s, (class_tls q).0 t),
          ),
      λ (a, b, n). classes.1 (
        (class_tcp p).0 a,
        (class_tcp q).0 b,
        λ (s, t). n ((class_tls p).1 s, (class_tls q).1 t),
      ),
    )

pub Contend-symm : (p q : String) → Contend p q → Contend q p
Contend-symm p q (a, b, n) = (b, a, λ (s, t). n (t, s))
