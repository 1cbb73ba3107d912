-- ===== src/Proxy.antt =====
-- server/src/proxy.rs: the gRPC proxy, one child module for each part of it.
pub mod Bearer
pub mod Grpc
pub mod Cache
pub mod Upstream
pub mod Session
pub mod Dispatch
pub mod Connect
