-- ===== src/Buffer.antt =====
-- ion-sfu/pkg/buffer/buffer.go: the buffer of a publisher's stream, on top of the bucket and the NACK
-- queue.
pub mod State
pub mod Count
pub mod Reports
pub mod Calc
pub mod Access
pub mod Missing
pub mod Gaps
pub mod Losses
pub mod Waiting
pub mod Inv
pub mod Packets
mod Tests
