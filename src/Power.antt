-- ===== src/Power.antt =====
-- tools/bench-power.py: the sampler of a machine's power, the markers file, the statistics and the energy
-- of a run.
pub mod Markers
pub mod Stats
pub mod Energy
pub mod Samples
pub mod Summary
pub mod Sampler
pub mod Child
pub mod Wrap
mod Tests
mod Scenarios
