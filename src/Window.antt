-- ===== src/Window.antt =====
-- The contract of a sliding anti-replay window of 1024 positions, which pkg/l0/anti_replay.go and
-- pkg/l1/anti_replay_session.go implement over two different arrays of words.
mod Contract
mod History
mod Tracking
pub use Contract.*
unfoldable pub use History.*
pub use Tracking.*
