-- ===== src/Checks/DanglingCertificateRef/Missing.antt =====
-- What dangling-certificate-ref reports.
use mathlib.Core.Path.{subst}
use mathlib.Core.Bool.{false≢true}
use gwlint.Prelude.{
  String, some, none, [], List, Bool, true, false, ◌∷◌, not, ◌≡◌, ◌↔◌, refl, sym, ◌∙◌, ◌==◌,
  is_empty, filter_map, filter_map_nonempty, any-contains, eq-false_of_ne, contains, Any,
  Diagnostic, if◌then◌else◌,
}
use gwlint.Prelude.Tests.{string_eq}
use gwlint.Api.{LintContext, Object}
use gwlint.GatewayApi.Parent.{ObjectRef, ref_eq}
use gwlint.GatewayApi.Certificate.{
  CertificateRef, terminating_certificate_refs, certificate_secrets, resolvable_certificate_kind,
}
use gwlint.GatewayApi.Certificate.Issued.{IsSecretObject, contains-certificate_secrets}
use gwlint.Checks.DanglingCertificateRef.{described, secret_named, message, judge, check_func}

-- Some object of the manifest set is that Secret, or a Certificate that writes it.
abbrev pub HasSecret : LintContext → ObjectRef → Type 0
HasSecret ctx ref = Any (λ obj. IsSecretObject ref obj.k8s_object) ctx.objects

-- The reference is to a core Secret, and the set has a Secret in its namespace but not that one.
abbrev pub IsUnserved : LintContext → CertificateRef → Type 0
IsUnserved ctx ref =
    (resolvable_certificate_kind ref.group ref.kind ≡ true)
    × ((other : ObjectRef) × HasSecret ctx other × (other.namespace ≡ ref.namespace))
    × (¬ HasSecret ctx (secret_named ref))

guards_iff :
    (a b c : Bool) (d : Diagnostic)
    → ((x : Diagnostic) × ((if not a
            then none
            else if not b
            then none
            else if c
            then none
            else some d)
          ≡ some x))
      ↔ ((a ≡ true) × (b ≡ true) × (c ≡ false))
guards_iff false b c d = (λ (x, e). cc, λ (h, _, _). cc)
guards_iff true false c d = (λ (x, e). cc, λ (_, h, _). cc)
guards_iff true true true d = (λ (x, e). cc, λ (_, _, h). cc)
guards_iff true true false d = (λ _. (refl, refl, refl), λ _. (d, refl))

module _ (ctx : LintContext) where
  namespace_iff :
      (ns : String)
      → (described (certificate_secrets ctx) ns ≡ true)
        ↔ ((other : ObjectRef) × HasSecret ctx other × (other.namespace ≡ ns))
  unfolding described
  namespace_iff ns =
      let (found, kept) = any-contains (λ r. r.namespace == ns) (certificate_secrets ctx) in
      (
        λ h.
            let (other, member, same) = found h in
            (
              other,
              (contains-certificate_secrets other ctx).0 member,
              (string_eq.beq_iff other.namespace ns).0 same,
            ),
        λ (other, present, same). kept (
          other,
          (contains-certificate_secrets other ctx).1 present,
          (string_eq.beq_iff other.namespace ns).1 same,
        ),
      )

  absent_iff :
      (ref : ObjectRef) → (contains (certificate_secrets ctx) ref ≡ false) ↔ (¬ HasSecret ctx ref)
  absent_iff ref = (
    λ h present. false≢true (sym h ∙ (contains-certificate_secrets ref ctx).1 present),
    λ absent. eq-false_of_ne (λ h. absent ((contains-certificate_secrets ref ctx).0 h)),
  )

  judged_iff :
      (ref : CertificateRef)
      → ((d : Diagnostic) × (judge (certificate_secrets ctx) ref ≡ some d)) ↔ IsUnserved ctx ref
  unfolding judge
  judged_iff ref =
      let known = certificate_secrets ctx in
      let (read, build) =
        guards_iff (resolvable_certificate_kind ref.group ref.kind) (described known ref.namespace)
          (contains known (secret_named ref)) (message ref) in
      (
        λ h.
            let (kind, here, absent) = read h in
            (kind, (namespace_iff ref.namespace).0 here, (absent_iff (secret_named ref)).0 absent),
        λ (kind, here, absent).
            build (
              kind,
              (namespace_iff ref.namespace).1 here,
              (absent_iff (secret_named ref)).1 absent,
            ),
      )

  empty_loop :
      (refs : List CertificateRef)
      → (if is_empty refs then [] else filter_map (judge (certificate_secrets ctx)) refs)
        ≡ filter_map (judge (certificate_secrets ctx)) refs
  empty_loop [] = refl
  empty_loop (ref ∷ refs) = refl

  check_func-filter_map :
      (object : Object)
      → check_func ctx object
        ≡ filter_map
            (judge (certificate_secrets ctx))
            (terminating_certificate_refs object.k8s_object)
  unfolding check_func
  check_func-filter_map object = empty_loop (terminating_certificate_refs object.k8s_object)

  pub certificate_ref_iff :
      (object : Object)
      → (is_empty (check_func ctx object) ≡ false)
        ↔ Any (IsUnserved ctx) (terminating_certificate_refs object.k8s_object)
  certificate_ref_iff object =
      subst
        (λ ds.
          (is_empty ds ≡ false)
          ↔ Any (IsUnserved ctx) (terminating_certificate_refs object.k8s_object))
        (sym (check_func-filter_map object))
        (filter_map_nonempty (judge (certificate_secrets ctx)) (IsUnserved ctx) judged_iff
          (terminating_certificate_refs object.k8s_object))
