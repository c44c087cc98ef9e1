-- ===== src/Tests.antt =====
-- Examples: the services on small inputs.
mod Fixtures
mod Settling
mod Submitting
mod Workers
mod Operators
mod Repeating
mod Runs
mod Services
mod Delivery
mod Reads
