-- ===== src/Examples.antt =====
-- The theorems at concrete inputs.
mod Memory
mod Instances
mod Interleavings
mod Access
mod Edges
mod Queries
mod Worlds
mod Values
mod Rescues
mod Sweeps
mod Lifecycles
mod Loops
mod Requests
