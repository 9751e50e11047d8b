-- ===== src/Tests.antt =====
-- Runs of the definitions on concrete inputs, with the theorems applied to them.
pub mod Fixtures
mod Parsing
pub mod Store
mod Storage
pub mod Sockets
mod Programs
mod Threads
pub mod Machine
mod Keys
pub mod Wire
mod Joined
mod Echo
pub mod Runs
mod Lifecycle
mod Parent
mod Startup
mod Building
