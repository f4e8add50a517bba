-- ===== src/Exl3.antt =====
-- vllm-exl3/overlay/exl3.py, where it decides: the fat tier, the routing statistics, the shards of a
-- quantised tensor, the local expert of a global one.
pub mod Tiers
pub mod Stats
pub mod Shards
pub mod Routing
pub mod Launches
mod Tests
