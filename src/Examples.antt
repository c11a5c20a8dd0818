-- ===== src/Examples.antt =====
-- The theorems at concrete inputs, with the tests of the definitions.
mod Sample
mod Values
mod Queues
mod Clients
mod Workers
mod Lifecycle
mod Stores
mod Loops
mod Paths
mod Database
mod Durable
mod Schemas
mod Timestamps
mod Creation
mod Revocation
mod Files
