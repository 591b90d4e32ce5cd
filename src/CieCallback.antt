-- ===== src/CieCallback.antt =====
-- The callback of the CIE login:
-- satosa/plugins/cieoidc-endpoints/authorization_callback_endpoint.py.
pub mod Services
pub mod Translation
pub mod Texts
pub mod Pages
pub mod Exchange
pub mod Endpoint
pub mod Stores
pub mod Redeem
pub mod Issuer
pub mod Refusals
pub mod Guards
pub mod Handed
pub mod Tests
