-- ===== src/P2p/Repos.antt =====
-- p2p-repos.ts: the operations on the store, each of them run at one instant `now`.
mod Engagements
mod Binds
mod Blocks
unfoldable pub use Engagements.*
unfoldable pub use Binds.*
unfoldable pub use Blocks.*
