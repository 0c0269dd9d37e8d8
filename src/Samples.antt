-- ===== src/Samples.antt =====
-- Concrete registries, plugins and policies, on which the theorems are applied and the functions run.
mod Protocols
mod Plugins
mod Policies
mod Paths
mod Volumes
mod Saved
mod Events
mod Exports
