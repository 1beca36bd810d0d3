-- ===== src/Tests.antt =====
-- Sample data, and the theorems applied to it.
pub mod Samples
pub mod Sites
mod Registry
mod Scraping
mod Status
mod Parsing
mod Batches
mod Bundles
mod Requests
