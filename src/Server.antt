-- ===== src/Server.antt =====
-- The server's side of the API, as far as the client depends on it: its routes (src/api/routers) and the
-- bodies and answers that they declare (src/schemas.py).
pub mod Schemas
pub mod Routes
pub mod Csrf
pub mod Accounts
pub mod Tickets
