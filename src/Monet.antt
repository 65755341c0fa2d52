-- ===== src/Monet.antt =====
-- crates/monet/src/routing: how a request finds the handler that answers it.
pub mod MethodRouter
pub mod Router
mod Tests
