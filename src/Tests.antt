-- ===== src/Tests.antt =====
-- Runs of the code's model at concrete inputs, which show that the hypotheses of its theorems can hold.
pub mod Devices
pub mod Executing
pub mod Images
pub mod Keys
pub mod Processes
pub mod Programs
pub mod Starting
pub mod Startup
pub mod Text
