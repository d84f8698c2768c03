-- ===== src/Rtsp.antt =====
-- controller/apps/controller/service/rtsp_client_service: the cameras that a controller has, with
-- the locks in Redis that keep two controllers from one camera.
pub mod Service
pub mod Frames
pub mod Locks
pub mod Relay
pub mod Events
mod Tests
