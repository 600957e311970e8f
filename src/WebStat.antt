-- ===== src/WebStat.antt =====
-- ControlServer/WebStat (under src/apps/Control/app): what the server shows of the jobs and pools.
pub mod Base
pub mod Workers
pub mod Jobs
pub mod Live
pub mod Pools
pub mod PoolLife
pub mod History
mod Tests
