-- ===== src/Rootd.antt =====
-- jidhr/cmd/rootd/server.go: the service that answers for the resolver over HTTP.
pub mod Limiter
pub mod Answers
pub mod Service
pub mod Outcomes
pub mod Batches
pub mod Gate
pub mod InMemory
