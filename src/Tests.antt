-- ===== src/Tests.antt =====
-- Runs on concrete inputs, and the properties applied to them.
mod Circuits
mod Connections
mod Caches
mod Pages
mod Executions
mod Guarded
mod Outages
mod Presses
mod Routers
mod Keys
mod Locking
mod Gateways
mod Talks
mod Backups
