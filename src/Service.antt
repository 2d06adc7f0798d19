-- ===== src/Service.antt =====
-- The Linux-side service of one client (service/), over a kernel that is a parameter.
pub mod Calls
pub mod State
pub mod Retire
pub mod Prepare
pub mod Rings
pub mod Configure
pub mod Tap
pub mod Activate
pub mod Safety
