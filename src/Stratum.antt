-- ===== src/Stratum.antt =====
-- ControlServer/Stratum/StratumClient.js: the client of a mining pool, and the jobs that it makes.
pub mod Target
pub mod Header
pub mod Job
pub mod Client
pub mod Values
pub mod Pool
mod Tests
