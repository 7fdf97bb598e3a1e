-- ===== src/Tests/Listeners.antt =====
-- The checks on listeners and on rules, at the samples.
use gwlint.Prelude.{[], ◌∷◌, ◌≢◌, inl, false, ◌≡◌, ◌↔◌, refl, is_empty, Any}
use gwlint.Prelude.Pairs.{SomePair}
use gwlint.Api.{LintContext, gateway_v1, gateway_class_v1}
use gwlint.GatewayApi.Rules.{rules_of}
use gwlint.GatewayApi.Parent.{parents_of, as_gateway}
use gwlint.GatewayApi.Parent.Entries.{seen_entries}
use gwlint.GatewayApi.Certificate.{terminating_certificate_refs}
use gwlint.Checks.ConflictingListeners
use gwlint.Checks.ConflictingListeners.Clash.{Clashing, conflicting_listeners_iff}
use gwlint.Checks.DuplicateListenerName
use gwlint.Checks.DuplicateListenerName.Repeated.{duplicate_listener_iff}
use gwlint.Checks.MissingCertificateGrant
use gwlint.Checks.MissingCertificateGrant.Permission.{Forbidden, missing_certificate_grant_iff}
use gwlint.Checks.GatewayServesNoRoutes
use gwlint.Checks.GatewayServesNoRoutes.Unreached.{Reaches, SomeRoute, serves_no_routes_iff}
use gwlint.Checks.RuleServesNothing
use gwlint.Checks.RuleServesNothing.Unserved.{Unanswered, rule_serves_nothing_iff}
use gwlint.Checks.DanglingListenerSetParent
use gwlint.Checks.DanglingListenerSetParent.Missing.{Dangles, listener_set_parent_iff}
use gwlint.Checks.DanglingGatewayClass
use gwlint.Checks.DanglingGatewayClass.Missing.{SomeGatewayClass, gateway_class_iff}
use gwlint.Tests.Sample.{meta, context, object_of, secure, shop_object, shop_route, as_route-shop}
use gwlint.Tests.Conflicts.{crowded, orphan, gateway_object, set_object, conflicts}

-- A set with a GatewayClass that its Gateway does not name.
abbrev classed : LintContext
classed = record {
  objects = gateway_object ∷ object_of (gateway_class_v1 (meta "" "other")) ∷ [];
  invalid_objects = [];
}

conflicting_listeners_iff_example :
    (is_empty (ConflictingListeners.check_func conflicts gateway_object) ≡ false)
    ↔ SomePair Clashing (seen_entries (gateway_v1 crowded))
conflicting_listeners_iff_example = conflicting_listeners_iff conflicts gateway_object

duplicate_listener_iff_example :
    (is_empty (DuplicateListenerName.check_func conflicts gateway_object) ≡ false)
    ↔ SomePair (λ l m. l.name ≡ m.name) (seen_entries (gateway_v1 crowded))
duplicate_listener_iff_example = duplicate_listener_iff conflicts gateway_object

missing_certificate_grant_iff_example :
    (is_empty (MissingCertificateGrant.check_func context (object_of (gateway_v1 secure))) ≡ false)
    ↔ Any (Forbidden context) (terminating_certificate_refs (gateway_v1 secure))
missing_certificate_grant_iff_example =
    missing_certificate_grant_iff context (object_of (gateway_v1 secure))

serves_no_routes_iff_example :
    (is_empty (GatewayServesNoRoutes.check_func conflicts gateway_object) ≡ false) ↔ (
      SomeRoute conflicts (λ _. Unit)
      × ¬ SomeRoute conflicts (λ route. Any (Reaches conflicts crowded) (parents_of route)))
unfolding as_gateway
serves_no_routes_iff_example = serves_no_routes_iff conflicts gateway_object crowded refl

rule_serves_nothing_iff_example :
    (is_empty (RuleServesNothing.check_func context shop_object) ≡ false)
    ↔ Any Unanswered (rules_of shop_object.k8s_object)
rule_serves_nothing_iff_example =
    rule_serves_nothing_iff context shop_object shop_route as_route-shop

listener_set_parent_iff_example :
    (is_empty (DanglingListenerSetParent.check_func conflicts set_object) ≡ false)
    ↔ Dangles conflicts orphan
listener_set_parent_iff_example = listener_set_parent_iff conflicts set_object orphan refl

gateway_class_iff_example :
    (is_empty (DanglingGatewayClass.check_func classed gateway_object) ≡ false) ↔ (
      (crowded.gateway_class_name ≢ "")
      × SomeGatewayClass classed (λ _. Unit)
      × ¬ SomeGatewayClass classed (λ name. name ≡ crowded.gateway_class_name))
gateway_class_iff_example = gateway_class_iff classed gateway_object crowded (inl refl)
