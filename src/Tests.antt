-- ===== src/Tests.antt =====
-- Runs of the definitions, and each theorem at a concrete input.
mod Metrics
mod Cors
mod Floats
mod Modules
mod Gpu
mod InFlight
mod Storage
mod Lock
mod Lives
mod Middleware
mod Limits
mod Shared
mod Config
mod Server
mod Monitor
mod Probe
