-- ===== src/Pipeline.antt =====
-- agent/pipeline.py: `ingest` and `process_case`, in child modules. The calls of the logger and the
-- latencies, which nothing reads back, are left out.
pub mod Stages
pub mod Dispatch
pub mod Process
pub mod Tracks
pub mod Growth
pub mod Book
pub mod Endings
pub mod Acts
pub mod Prepares
pub mod Settles
pub mod Yields
pub mod Cap
pub mod Holdout
pub mod Ingested
pub mod Frame
pub mod FailClosed
