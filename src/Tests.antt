-- ===== src/Tests.antt =====
-- Runs of the models on concrete inputs, and the theorems applied to them.
pub mod Samples
mod Filters
mod Stores
pub mod Bytes
pub mod Disks
mod Snapshots
pub mod Services
mod Tools
mod Engine
mod Parts
mod Admin
mod Installer
mod Service
