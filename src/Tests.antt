-- ===== src/Tests.antt =====
-- Runs of the models on small inputs.
pub mod Fixture
pub mod Strings
pub mod Display
pub mod Files
pub mod Devices
pub mod Machine
pub mod Spaces
pub mod Descriptors
pub mod Broken
pub mod Processes
pub mod Commands
pub mod Blocks
pub mod Vectors
pub mod Calls
pub mod Users
pub mod Booting
pub mod Fishes
