-- ===== src/Receiver.antt =====
-- ion-sfu/pkg/sfu/receiver.go: what a publisher's receiver does for its down tracks.
pub mod Retransmit
pub mod Answered
pub mod Tracks
pub mod Switches
mod Tests
