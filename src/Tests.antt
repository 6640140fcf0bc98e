-- ===== src/Tests.antt =====
-- Runs at concrete inputs, and the theorems applied to them.
pub mod Data
mod Counts
mod Grouping
mod Policies
mod Manifests
mod Canonical
mod Closures
mod Reports
mod Cases
mod Reads
mod Retries
mod Rows
mod Splits
mod Stitched
mod Timeouts
mod Whole
mod Snapshots
mod Gitlinks
mod Attachments
mod Plans
mod Sdk
mod Installs
