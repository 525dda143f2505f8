-- ===== src/Examples.antt =====
-- The theorems at concrete inputs.
mod Composition
mod Containment
mod Cpusets
mod Events
mod Kernel
mod Locks
mod Managers
mod Monitoring
mod Policies
mod Receivers
mod Shutdown
