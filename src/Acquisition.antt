-- ===== src/Acquisition.antt =====
-- packages/acquisition: fetching, validation, egress lanes and the scrape worker.
pub mod Models
pub mod Policy
pub mod Validate
pub mod Tor
pub mod Worker
pub mod Finalize
pub mod Batch
pub mod Sources
pub mod Proxies
pub mod Fetch
