-- ===== src/GatewayApi/Certificate/Issued.antt =====
-- Which Secrets the manifest set has: its own and those that cert-manager writes.
use mathlib.Core.Bool.{false≢true}
use gwlint.Prelude.{
  String, Option, none, some, Bool, true, false, not, ◌||◌, ◌≡◌, ◌≢◌, ◌↔◌, refl, ◌==◌, contains,
  Any, if◌then◌else◌,
}
use gwlint.Prelude.Tests.{string_eq}
use gwlint.Api.{K8sObject, LintContext, Unstructured, secret, unstructured}
use gwlint.GatewayApi.Parent.{ObjectRef, ref_eq}
use gwlint.GatewayApi.Parent.Present.{Gives, Gives-some, Gives-none, contains-filter_map}
use gwlint.GatewayApi.Certificate.{
  cert_manager_group, secret_ref, non_empty, cert_manager_secret_name, secret_of,
  certificate_secrets,
}

-- A cert-manager Certificate that names its Secret.
abbrev pub Issues : Unstructured → String → Type 0
Issues u name =
    (u.group ≡ cert_manager_group)
    × (u.kind ≡ "Certificate")
    × (u.secret_name ≡ some name)
    × (name ≢ "")

-- The object is that Secret, or a cert-manager Certificate that writes it.
abbrev pub IsSecretObject : ObjectRef → K8sObject → Type 0
IsSecretObject ref (secret m) = ref ≡ secret_ref m.namespace m.name
IsSecretObject ref (unstructured u) =
    (name : String) × Issues u name × (ref ≡ secret_ref u.meta.namespace name)
IsSecretObject ref _ = ⊥

non_empty_iff :
    (o : Option String) (n : String) → (non_empty o ≡ some n) ↔ ((o ≡ some n) × (n ≢ ""))
non_empty_iff none n = (λ h. cc, λ (h, _). cc)
non_empty_iff (some m) n = by_test (m == "") (string_eq.beq_iff m "")
  where
    by_test :
        (b : Bool)
        → ((b ≡ true) ↔ (m ≡ ""))
        → ((if b then none else some m) ≡ some n) ↔ ((some m ≡ some n) × (n ≢ ""))
    by_test true e = (λ h. cc, λ (h, named). let blank = e.0 refl in absurd (named (cc)))
    by_test false e = (λ h. (h, λ k. false≢true (e.1 (cc))), λ (h, _). h)

guarded_name_is :
    (a b : Bool) (o : Option String) (n : String) {P Q R : Type 0}
    → ((a ≡ true) ↔ P)
    → ((b ≡ true) ↔ Q)
    → ((o ≡ some n) ↔ R)
    → ((if not a || not b then none else o) ≡ some n) ↔ (P × Q × R)
guarded_name_is true true o n p q r = (λ h. (p.0 refl, q.0 refl, r.0 h), λ (_, _, k). r.1 k)
guarded_name_is true false o n p q r = (λ h. cc, λ (_, k, _). absurd (false≢true (q.1 k)))
guarded_name_is false b o n p q r = (λ h. cc, λ (k, _, _). absurd (false≢true (p.1 k)))

secret_name_iff :
    (u : Unstructured) (n : String) → (cert_manager_secret_name u ≡ some n) ↔ Issues u n
unfolding cert_manager_secret_name
secret_name_iff u n =
    let (read, build) =
      guarded_name_is (u.group == cert_manager_group) (u.kind == "Certificate")
        (non_empty u.secret_name) n (string_eq.beq_iff u.group cert_manager_group)
        (string_eq.beq_iff u.kind "Certificate") (non_empty_iff u.secret_name n) in
    (
      λ h. let (group, kind, (name, named)) = read h in (group, kind, name, named),
      λ (group, kind, name, named). build (group, kind, (name, named)),
    )

module _ (ref : ObjectRef) where
  Gives-certificate :
      (u : Unstructured) (o : Option String)
      → ((n : String) → (o ≡ some n) ↔ Issues u n)
      → Gives ref (elim o [ none ↦ none | some name ↦ some (secret_ref u.meta.namespace name) ])
        ↔ IsSecretObject ref (unstructured u)
  Gives-certificate u none issues =
      (λ (r, e, _). cc, λ (name, issued, _). let k = (issues name).1 issued in cc)
  Gives-certificate u (some name) issues = (
    λ (r, e, same). (name, (issues name).0 refl, cc),
    λ (n, issued, same).
        let k = (issues n).1 issued in (secret_ref u.meta.namespace name, refl, cc),
  )

  Gives-secret_of : (obj : K8sObject) → Gives ref (secret_of obj) ↔ IsSecretObject ref obj
  unfolding secret_of
  Gives-secret_of (secret m) = Gives-some ref _
  Gives-secret_of (unstructured u) =
      Gives-certificate u (cert_manager_secret_name u) (secret_name_iff u)
  Gives-secret_of _ = Gives-none ref

  -- CertificateSecrets holds a reference exactly when some object of the set is the Secret of that
  -- namespace and name, or a cert-manager Certificate of that namespace whose secretName is that
  -- name and not empty.
  pub contains-certificate_secrets :
      (ctx : LintContext)
      → (contains (certificate_secrets ctx) ref ≡ true)
        ↔ Any (λ obj. IsSecretObject ref obj.k8s_object) ctx.objects
  unfolding certificate_secrets
  contains-certificate_secrets ctx =
      contains-filter_map ref secret_of (IsSecretObject ref) ctx.objects Gives-secret_of
