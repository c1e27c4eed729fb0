-- ===== src/Tests.antt =====
-- Runs of the model on small inputs, and the theorems at them.
pub mod Demo
mod Tasks
mod Switches
pub mod Waiting
mod Rings
mod Queues
mod Runs
mod Messages
mod Small
mod Commands
mod Posts
mod Names
mod Zombies
mod Coroutines
mod Creation
mod Holding
