-- ===== src/Cluster/Tests.antt =====
-- The cluster's modules at work on small jobs.
mod Jobs
mod Parts
mod Accept
