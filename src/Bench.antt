-- ===== src/Bench.antt =====
-- vllm-exl3/scripts/bench-ab.py: an A/B benchmark of two or more arms.
pub mod Env
pub mod Arms
pub mod Boots
pub mod Json
pub mod Metrics
pub mod Urls
pub mod Specs
pub mod Stats
pub mod Results
pub mod System
pub mod Http
pub mod Probe
pub mod Secrets
pub mod Commands
pub mod Clients
pub mod Protocol
pub mod Run
pub mod Comparison
pub mod Messages
pub mod Planning
pub mod Main
mod Tests
mod Scenarios
mod Reports
