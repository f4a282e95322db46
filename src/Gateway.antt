-- ===== src/Gateway.antt =====
-- The HTTP gateway, core/apigateway/handlers.go, in front of the store and the replication manager.
pub mod Model
pub mod Text
pub mod Multipart
pub mod Handlers
pub mod Ranges
pub mod Guard
pub mod Entered
pub mod Queue
pub mod Modest
pub mod Transfers
mod Tests
pub mod Limits
