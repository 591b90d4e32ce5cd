-- ===== src/CieAuthorization.antt =====
-- The start of the CIE login:
-- satosa/plugins/cieoidc-endpoints/authorization_endpoint.py.
pub mod Request
pub mod Url
pub mod Endpoint
pub mod Hidden
pub mod Completes
pub mod Login
mod Tests
