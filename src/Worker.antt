-- ===== src/Worker.antt =====
-- The model worker: its registry of requests, the frames of its process and the decoding of a prompt.
pub mod Requests
pub mod Frames
pub mod Pruning
pub mod History
pub mod Sparing
pub mod Context
