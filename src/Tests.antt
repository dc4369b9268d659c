-- ===== src/Tests.antt =====
-- The theorems at concrete inputs.
mod Tasks
mod Locks
mod Areas
mod Tables
mod Bytes
mod Words
mod Chunks
mod Starts
mod Prints
mod Sections
mod Vectors
mod Trees
mod Drawings
mod Logs
