-- ===== src/Checks.antt =====
-- pkg/templates: the checks.
mod Reasons
pub mod DanglingParentRef
pub mod ListenerNotFound
pub mod RouteNotPermitted
pub mod ProtocolMismatch
pub mod HostnameNeverMatches
pub mod Exclusive
pub mod Whole
pub mod DanglingBackendRef
pub mod MissingReferenceGrant
pub mod ConflictingPolicies
pub mod ServiceBackendWithoutPort
pub mod AllWeightsZero
pub mod DanglingCertificateRef
pub mod DanglingPolicyTarget
pub mod DuplicateRuleName
pub mod GatewayServesNoRoutes
pub mod MissingCertificateGrant
pub mod RuleServesNothing
pub mod DanglingGatewayClass
pub mod DanglingListenerSetParent
pub mod TlsListenerWithoutCertificate
pub mod HostnameOnNonHostnameProtocol
pub mod BackendWithoutEndpoints
pub mod DuplicateListenerName
pub mod RetryWithoutBudget
pub mod FqdnBackendColdStart
pub mod HealthCheckWithoutFailover
pub mod ConflictingListeners
pub mod ConflictingRouteMatch
