-- ===== src/Tests.antt =====
-- The theorems at concrete inputs, and runs of the models.
mod Rabin
mod Chunkers
mod Stores
mod Settings
mod Libraries
mod Crypto
mod Network
mod Factory
mod Queues
