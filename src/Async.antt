-- ===== src/Async.antt =====
-- GzDRL/include/async_rl_server.hh: the blocking queue and `AsyncDRLServerPool`. A vector is a
-- function of the index, with `num_servers` as its size; a server pointer is an `Option`. A task is
-- a function of the server that returns or throws; `std::packaged_task` keeps what it did for the
-- caller's future. Thread affinity is left out.
mod Queue
mod Pool
pub mod Schedule
pub mod Close
mod Tests
pub use Queue.*
pub use Pool.*
