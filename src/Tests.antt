-- ===== src/Tests.antt =====
-- Runs of the theorems on concrete states, packets and keys.
pub mod Services
pub mod Menus
pub mod Buffers
pub mod Sessions
pub mod Packets
pub mod Clients
pub mod Keymaps
pub mod Drivers
pub mod Tools
pub mod Starts
pub mod Links
pub mod Kernels
pub mod Demos
