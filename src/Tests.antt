-- ===== src/Tests.antt =====
-- The theorems at concrete inputs, and runs of the code.
mod Sample
mod Storage
mod Codec
mod Values
mod Sequences
mod Recovered
mod Requests
mod Snapshots
mod Collections
mod Workers
mod Starts
mod Crashes
mod Faults
mod Races
