-- ===== src/Orchestrate.antt =====
-- The distribution of records to pipelines by their keys, orchestrate/obykeyset and
-- util/localcachedmap.
pub mod KeySet
pub mod Routing
pub mod Accepted
pub mod Closed
pub mod Shared
mod Tests
