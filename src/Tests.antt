-- ===== src/Tests.antt =====
-- Runs on concrete inputs: the hypotheses of the theorems hold there.
mod Routes
mod Auth
mod Router
mod Limiter
mod Servers
mod Middleware
mod Validation
mod HttpFetch
mod Serve
mod Telemetry
mod Ddl
mod Policies
mod Registry
