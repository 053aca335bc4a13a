-- ===== src/Server/Lifecycle/Checks.antt =====
-- internal/server/server.go, startPeriodicCheckIdleVNPUs: what the goroutine destroys.
