-- ===== src/Health.antt =====
-- internal/health: the verdict on whether a service earns, in Assess; the signals judged over hours
-- of logs and their cache, in Windows; the collection over all services, in Collect.
pub mod Assess
pub mod Windows
pub mod Collect
pub mod Verdict
pub mod Refusal
pub mod OneRefresh
pub mod Collection
pub mod Refresh
mod Tests
