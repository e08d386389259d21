-- ===== src/Lib.antt =====
-- GzDRL: a single-process reinforcement learning framework for Gazebo. This library models parts of
-- its C++ code and proves what makes them correct. Paths are from the repository's root.
--
-- Base: names, lists, maps, results and tests that the other modules share.
-- Async: GzDRL/include/async_rl_server.hh. `Async.Queue` is `BlockingQueue`, `Async.Pool` the
--   pool's state with `InitMethod`, `submit`, `call` and the rounds of `worker_loop`, `Async.Close`
--   its `close`. `Async.Schedule` runs the steps of callers and workers in any order.
-- Video: GzDRL/src/sensor/video_recording_manager.cc. `Video.FileName` has the functions on file
--   names, `Video.Defs` the calls that any thread may make, `Video.Render` the render thread's part,
--   `Video.Threads` the interleavings of their locked blocks, and `Video.Run` histories of calls.
-- Sim: GzDRL/src/rl_server.cc. `Sim.Splitter` is `model_name_splitter`, `Sim.Defs` the state of
--   `DRLHelperSystem` and its calls of the simulation, `Sim.Resets` has `ResetUavCommands` and
--   `ReleaseVelocityCmds`, `Sim.Update` `PreUpdate` with its queues and the caches of models and
--   links, `Sim.Server` `run_N`, `reset_pos` and `respawn_model` of `DRLServer`; `Sim.Markers` is
--   `MarkerManagerDRL` of GzDRL/include/common/common.hh. `Sim.Views` has the caches of states and
--   contacts with `PostUpdate` and the readers, `Sim.Commands` the commands to links and joints,
--   `Sim.Inertials` masses and inertias, `Sim.Allocation` the allocation matrices of rotors,
--   `Sim.Limits` the rate limiters, `Sim.Controls` the control states and the traces,
--   `Sim.Tracking` the loops that drive a link by a controller, `Sim.Setters` the commands of thrust
--   with body rates or torques, `Sim.Discovery` the constructor's
--   search for models, and `Sim.Recordings` the waits of `start_camera_recording` and
--   `stop_camera_recording`, which call the recorder of `Video`.
-- Envs: the environments. `Envs.RingBuffer` is `RingBuffer` of
--   envs/common_utils.hh, and `Envs.Image` its `ToRGB8_HWC` and `ResizeNearestRGB888`.
--   `Envs.States` is `UpdateControlStates` of envs/gazebo_envpool/gazebo_envpool.hh, `Envs.Hover`
--   envs/processors/hover_processor.hh, `Envs.Episode` the episodes of
--   envs/gazebo_envpool/gazebo_hover.hh, and `Envs.Reference` the reference of
--   GzDRL/include/common/trajectory_tracking_reference.hh.
-- Waypoints: GzDRL/include/common/waypoint_generator.hh, with the feasibility of a curve in
--   `Waypoints.Curves`, the tests of arguments in `Waypoints.Limits`, the loops in
--   `Waypoints.Loops`, the curves and their periods in `Waypoints.Shapes`, and the generators in
--   `Waypoints.Generators`; loops end by `Waypoints.Ends` and `Waypoints.Periods`; `Waypoints.Sampler` is
--   GzDRL/include/common/randomized_trajectory_sampler.hh, which calls them. Their loops run on
--   fuel, which `Waypoints.Requests` proves enough from what is relied on of the numbers.
--
-- Numbers are natural numbers; times of the recorder are nanoseconds, and their sums do not overflow.
-- Joining a worker takes one round for each command in its queue and one more to end, which
-- `Async.Close.Ends` proves enough. The splitter has fuel for as many delimiters as the name has
-- characters. What Gazebo's simulation, rendering library and encoder answer is a parameter that may
-- depend on the whole history of calls. Tasks of the pool are functions of the server. A step that
-- would follow an iterator at the end, or read past the end of a buffer, has no outcome. The rounds
-- of `run_once` that a wait goes through are a parameter; a wait that is not over behind them has
-- no result. Floating-point numbers are a parameter, and so is how they round; that they are finitely
-- many is relied on where loops over them end. The memory that a vector reserves is left out. A scene
-- that is a null pointer is one that is not there: a shutdown relies on it where a recording is held.
--
-- Not modelled: when the render thread runs during a step, how markers look, the commands that
-- controllers compute, rotor parameters, rewards, the environments other than hovering, the plugins
-- and sensors derived from Gazebo, the copies of EnvPool, of the concurrent queue and of robin-map,
-- the bindings and the ROS bridge. How EnvPool calls an environment is taken from its interface.
mod Base
pub mod Async
pub mod Video
pub mod Waypoints
pub mod Envs
pub mod Sim
