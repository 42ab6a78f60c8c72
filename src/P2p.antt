-- ===== src/P2p.antt =====
-- src/p2p: the messages between peers, and the task that exchanges them.
pub mod Request
pub mod Broadcast
pub mod Messages
pub mod Task
pub mod Listener
mod Suite
pub mod Delivery
pub mod Api
pub mod Bootstrap
pub mod Gossip
pub mod Loop
