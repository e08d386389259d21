-- ===== src/Envs.antt =====
-- The utilities of the environments.
pub mod RingBuffer
pub mod Image
pub mod Hover
pub mod States
pub mod Reference
pub mod Episode
mod Tests
