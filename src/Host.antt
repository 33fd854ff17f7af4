-- ===== src/Host.antt =====
-- The machine under llauncher: the files that it shares with other llauncher processes, the
-- process table that psutil shows, and the clock. Operations are actions of `Exec`.
mod State
mod Monad
pub mod Hoare
pub mod Frame
pub mod Framed
pub mod Safely
unfoldable pub use State.*
unfoldable pub use Monad.*
