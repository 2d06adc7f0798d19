-- ===== src/Service/Safety.antt =====
-- The invariant of a client's backend: what is live borrows what is mapped.
pub mod Keep
pub mod Grant
pub mod Devices
use hype_r_io_vm.Base.{ℕ, ◌<◌, ◌≡◌, Bool, true, ◌||◌, Option, is_some}
use hype_r_io_vm.Service.State.{Endpoint, Backend}

-- A vhost worker or a notification route may still use the endpoint.
abbrev pub is_live : Endpoint → Bool
is_live e = is_some e.fd || e.bound

-- Every live endpoint has the client's memory mapped, every mapping its descriptor and a
-- nonempty region, every attached endpoint its vhost descriptor, and the TAP a live endpoint.
pub record IsSafe (b : Backend) : Type 0 where
  pub disk_borrows : is_live b.disk ≡ true → is_some b.memory ≡ true
  pub net_borrows : is_live b.net ≡ true → is_some b.memory ≡ true
  pub mapping_owned : is_some b.memory ≡ true → is_some b.memory_fd ≡ true
  pub mapping_nonempty : is_some b.memory ≡ true → 0 < b.region.length
  pub disk_attached : b.disk.attached ≡ true → is_some b.disk.fd ≡ true
  pub net_attached : b.net.attached ≡ true → is_some b.net.fd ≡ true
  pub tap_live : is_some b.tap ≡ true → is_live b.net ≡ true
