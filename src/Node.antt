-- ===== src/Node.antt =====
-- controller/pkg/node and its copy ion-sfu/pkg/node: which node serves a room or has a camera, kept
-- in Redis.
pub mod Keys
pub mod Names
pub mod Rooms
pub mod Agreement
pub mod Cleaner
pub mod Cleaned
pub mod Dead
pub mod Failover
pub mod Restart
mod Tests
