-- ===== src/Tests.antt =====
-- Concrete runs of every component.
mod Admission
mod Serving
mod Caching
mod Replay
mod Requests
mod Backends
mod Gates
mod Storage
mod Batching
mod Contracts
mod Frames
mod Prompts
