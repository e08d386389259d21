-- ===== src/Sim.antt =====
-- The system inside the simulation.
pub mod Splitter
pub mod Defs
pub mod Resets
pub mod Update
pub mod Server
pub mod Markers
pub mod Views
pub mod Limits
pub mod Controls
pub mod Commands
pub mod Recordings
pub mod Discovery
pub mod Inertials
pub mod Allocation
pub mod Tracking
pub mod Setters
mod Tests
