-- ===== src/Video.antt =====
-- `VideoRecordingManager` of GzDRL/src/sensor/video_recording_manager.cc and
-- GzDRL/include/sensor/video_recording_manager.hh. The scene, the cameras and the encoders are not
-- the repository's: the manager's calls of them are a history, and what they answer is a parameter
-- that may depend on the whole history. Each function here runs under the manager's locks, or in
-- the render thread, in the source. Times are nanoseconds.
pub mod FileName
pub mod Defs
pub mod Render
pub mod Threads
pub mod Run
mod Tests
