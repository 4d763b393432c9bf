-- ===== src/Tests.antt =====
-- Concrete runs of the code, a module for each part of the development.
mod Data
mod Store
mod Places
mod Queue
mod Handlers
mod Tails
mod Processes
mod Chains
mod Networks
mod Clusters
mod Deployed
mod Clients
mod Benches
