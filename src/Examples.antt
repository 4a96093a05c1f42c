-- ===== src/Examples.antt =====
-- The theorems at concrete inputs, and runs of the definitions.
mod Run
mod Ownership
mod Outcomes
mod Values
mod Scheduling
mod Uploads
mod Working
mod Files
mod Access
