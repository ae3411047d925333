-- ===== src/Api.antt =====
-- frontend/src/lib/api.ts: cookies, the CSRF interceptor and the streamed chat turn.
pub mod Cookie
pub mod Csrf
pub mod Errors
pub mod Stream
pub mod Shapes
