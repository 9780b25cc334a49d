-- ===== src/Http.antt =====
-- http/: routes, events, connections and requests in flight.
pub mod GenRequest
pub mod Parser
pub mod Response
pub mod Router
pub mod Server
pub mod Sse
mod Tests
