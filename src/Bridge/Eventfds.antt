-- ===== src/Bridge/Eventfds.antt =====
-- `struct hyper_io_eventfds` and `hyper_io_eventfds_valid` of include/hyper_io.h, which the service
-- and the driver share, and `hyper_io_wait_ready`.
use hype_r_io_vm.Base.{
  ℕ, ◌+◌, Bool, true, false, ◌&&◌, ◌||◌, not, List, [], ◌∷◌, ◌==◌, leb, nonzero, bit_and,
  if◌then◌else◌,
}
use hype_r_io_vm.Service.State.{io_queues, network_queues}

-- A descriptor as the C code holds it, in an `__s32`.
pub data Fd : Type 0 where
  minus_one negative : Fd
  number : ℕ → Fd

pub record Eventfds : Type 0 where
  pub epoch : ℕ
  pub reserved : ℕ
  pub fds : List (Fd × Fd)  -- `kick[i]` and `call[i]`

abbrev pub is_absent : Fd × Fd → Bool
is_absent (minus_one, minus_one) = true
is_absent _ = false

abbrev pub is_open : Fd × Fd → Bool
is_open (number k, number c) = true
is_open _ = false

-- The body of the loop, for entry `i`.
abbrev pub fd_valid : ℕ → ℕ → ℕ → Fd × Fd → Bool
fd_valid required maximum i p =
    if leb maximum i || (leb required i && is_absent p) then is_absent p else is_open p

unfoldable pub fds_valid : ℕ → ℕ → ℕ → List (Fd × Fd) → Bool
fds_valid required maximum i [] = true
fds_valid required maximum i (p ∷ ps) =
    fd_valid required maximum i p && fds_valid required maximum (i + 1) ps

abbrev pub required_of : Bool → ℕ
required_of network = if network then network_queues else 3

abbrev pub maximum_of : Bool → ℕ
maximum_of network = if network then network_queues else io_queues

unfoldable pub hyper_io_eventfds_valid : Eventfds → Bool → Bool
hyper_io_eventfds_valid e network = fds_valid (required_of network) (maximum_of network) 0 e.fds

-- HYPER_IO_MAILBOX_CLOSED, the driver's CLOSED.
abbrev pub mailbox_closed : ℕ
mailbox_closed = 4

-- `status & (wanted | CLOSED)` of two flags that are single bits.
unfoldable pub hyper_io_wait_ready : ℕ → ℕ → ℕ → ℕ → Bool
hyper_io_wait_ready status wanted armed current =
    nonzero (bit_and status wanted)
    || nonzero (bit_and status mailbox_closed)
    || not (armed == current)
