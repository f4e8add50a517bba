-- ===== src/Overlay.antt =====
-- The patches of vLLM under vllm-exl3/overlay, where they decide: the code that they insert, and how
-- they rewrite a file.
mod Tests
pub mod Workspace
pub mod Edits
pub mod Retention
pub mod NoStore
pub mod AlignFloor
pub mod DecodeFloor
pub mod TailSlots
pub mod Sites
