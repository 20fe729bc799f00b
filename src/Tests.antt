-- ===== src/Tests.antt =====
-- The theorems at concrete inputs.
mod Home
mod Ssh
mod Key
mod Graph
mod Engine
mod Frontend
mod Compile
mod Options
mod Version
mod V0
