-- ===== src/Bridge.antt =====
-- modules/io-bridge/hyper_io_bridge.c: the notification routes and the control mailbox of a client.
pub mod Eventfds
pub mod State
pub mod Notification
pub mod Mailbox
pub mod Device
