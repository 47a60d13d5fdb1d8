-- ===== src/Tests.antt =====
-- Runs of the model on a small kernel, and the theorems at concrete inputs.
mod Kernel
mod Setup
mod Faults
mod Requests
mod Calls
mod Platforms
mod Remote
mod Interleaved
