-- ===== src/P2p.antt =====
-- packages/db/src/p2p-repos.ts and packages/core/src/p2p-service.ts: conversations between two WeChat peers
-- through the bot, with binding to a platform account, requests, sessions and block lists.
pub mod Store
pub mod Repos
pub mod Command
pub mod Service
pub mod Linked
pub mod Invariant
pub mod Endings
pub mod Peers
pub mod Starts
pub mod Asking
pub mod Accepting
pub mod Binding
pub mod Rebinding
pub mod Blocking
pub mod Mentions
pub mod Relays
pub mod Accounts
pub mod Talks
pub mod Reach
pub mod Codes
pub mod Delivery
mod Tests
