-- ===== src/Control.antt =====
-- Control requests.
pub mod Op
pub mod Dispatch
pub mod Fence
pub mod Serve
