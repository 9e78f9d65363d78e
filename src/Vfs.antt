-- ===== src/Vfs.antt =====
-- The storage engine, package vfs.
pub mod Hash
pub mod Segment
pub mod Transformer
pub mod Codec
pub mod FileName
pub mod Disk
pub mod Fs
pub mod Lfs
pub mod Updates
pub mod Recovery
pub mod Snapshot
pub mod Open
pub mod Collector
