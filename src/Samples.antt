-- ===== src/Samples.antt =====
-- Concrete flows, values and manifests, and what the theorems say of them.
pub mod Flows
mod Runs
mod Values
mod Searches
mod Manifests
mod Generated
mod Requests
mod Scopes
mod Executors
mod Listeners
mod Layers
