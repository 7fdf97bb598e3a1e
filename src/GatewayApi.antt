-- ===== src/GatewayApi.antt =====
-- pkg/gatewayapi
pub mod Route
pub mod Rules
pub mod Parent
pub mod Hostnames
pub mod Attach
pub mod Certificate
pub mod PolicyCoverage
pub mod RouteMatch
