-- ===== src/Chatflow.antt =====
-- packages/core/src/chatflow: the graphs of nodes that answer a turn, their validation and their run.
pub mod Value
pub mod Template
pub mod Graph
pub mod Engine
pub mod Options
pub mod Http
pub mod Nodes
pub mod Run
pub mod Valid
pub mod Accepts
mod Steps
pub mod Sends
pub mod Safety
pub mod Reload
pub mod Ends
pub mod Starts
pub mod Egress
pub mod Requests
pub mod Hops
pub mod Credentials
mod Tests
