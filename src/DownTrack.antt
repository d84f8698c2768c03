-- ===== src/DownTrack.antt =====
-- ion-sfu/pkg/sfu/downtrack.go, simulcast.go and the VP8 part of helpers.go: one media track on its
-- way to one subscriber.
pub mod State
pub mod Layers
pub mod Simple
pub mod Simulcast
pub mod Feedback
pub mod Numbers
pub mod Switching
pub mod Pending
pub mod Drops
pub mod Sources
pub mod Requests
pub mod Binding
pub mod Start
mod Tests
