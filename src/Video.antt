-- ===== src/Video.antt =====
-- v4/testing/video/proto.go: the frames of the video test programs.
pub mod Bytes
pub mod Frames
pub mod Reading
pub mod Trip
pub mod Stream
mod Tests
