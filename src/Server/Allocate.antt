-- ===== src/Server/Allocate.antt =====
-- internal/server/allocate.go, and Allocate of internal/server/server.go.
pub mod Response
pub mod Pending
pub mod Handler
pub mod Calls
