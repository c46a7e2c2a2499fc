-- ===== src/Tests.antt =====
-- Concrete instances of the theorems, at the values of a small deployment.
mod Samples
mod Addressing
mod Forwarding
mod Retries
mod Upkeep
mod Kernel
mod Delivery
mod Statistics
