-- ===== src/Tests.antt =====
-- Runs of the model, and each theorem at a concrete input.
mod Samples
mod Upserts
mod Evictions
mod Queries
mod Caches
mod Handlers
mod Informers
mod Elastics
mod Services
mod Redactions
mod Restarts
mod Gateways
mod Configs
mod Controllers
mod Servers
mod Shutdowns
