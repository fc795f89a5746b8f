-- ===== src/Tests.antt =====
-- Concrete inputs for the theorems, and runs of the code on them.
mod MemDb
mod Fixtures
mod Storage
mod Requests
mod Groups
mod Logs
mod Transactions
mod Clusters
mod Watchers
mod Jobs
mod RaftLogs
mod Scans
