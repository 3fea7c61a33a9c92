-- ===== src/Tests.antt =====
-- Inputs on which the theorems apply: a state, and small stand-ins for liboqs and OpenSSL.
mod Fixtures
mod Primitives
mod SignBytes
mod Upgrades
mod Libraries
mod Guards
mod Hashes
mod Kems
mod Python
mod Memory
mod Threads
mod Vectors
mod Bindings
mod Client
