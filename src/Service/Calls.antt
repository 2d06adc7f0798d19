-- ===== src/Service/Calls.antt =====
-- The system calls that service/*.c makes. The kernel behind them is not under this repository:
-- it is a parameter, a function from the calls made so far and the call at hand to its answer,
-- so every theorem about the service holds for all answers that a kernel may give.
use hype_r_io_vm.Base.{ℕ, Bool, true, false, Option, none, some, List, [], ◌∷◌}

pub data Device : Type 0 where
  vhost_scsi vhost_net net_tun guest_memory : Device

-- The ioctls that `vhost_ioctl` issues on an endpoint.
pub data VhostCommand : Type 0 where
  set_resources : ℕ → ℕ → VhostCommand
  set_owner : VhostCommand
  set_features : ℕ → VhostCommand
  set_mem_table : ℕ → ℕ → ℕ → VhostCommand
  set_vring_num : ℕ → ℕ → VhostCommand
  set_vring_addr : ℕ → ℕ → ℕ → ℕ → VhostCommand
  set_vring_base : ℕ → ℕ → VhostCommand
  set_vring_kick : ℕ → ℕ → VhostCommand
  set_vring_call : ℕ → ℕ → VhostCommand

-- A descriptor that the C code keeps as -1 is `none`.
pub data Call : Type 0 where
  open_device : Device → Call
  new_eventfd : Call
  close_descriptor : ℕ → Call
  allocate : ℕ → Call
  map_shared : ℕ → Option ℕ → Call
  unmap : ℕ → ℕ → Call
  memory_info : Option ℕ → Call
  memory_prepare : Option ℕ → ℕ → ℕ → ℕ → ℕ → ℕ → List ℕ → Call
  memory_release : Option ℕ → Call
  admit_token : Option ℕ → ℕ → ℕ → ℕ → Call
  read_extent : Option ℕ → ℕ → Call
  prove_quiescent : Option ℕ → ℕ → Call
  bind_eventfds : Option ℕ → ℕ → List (Option ℕ) → List (Option ℕ) → Call
  unbind : Option ℕ → Call
  vhost : Option ℕ → VhostCommand → Call
  scsi_set_endpoint : Option ℕ → List ℕ → Call
  scsi_clear_endpoint : Option ℕ → List ℕ → Call
  net_set_backend : Option ℕ → ℕ → Option ℕ → Call
  reset_owner : Option ℕ → Call
  find_export : List ℕ → Call
  tun_attach : Option ℕ → Call
  tun_header_size : Option ℕ → ℕ → Call
  tun_little_endian : Option ℕ → ℕ → Call
  tun_offload : Option ℕ → ℕ → Call
  tun_send_buffer : Option ℕ → ℕ → Call
  interface_index : Call
  control_socket : Call
  set_queue_length : ℕ → ℕ → Call
  bridge_add : ℕ → List ℕ → ℕ → Call
  interface_flags : ℕ → Call
  interface_up : ℕ → Call

-- The calls made so far, newest first.
abbrev pub Trace : Type 0
Trace = List Call

-- `struct hyper_memory_info`
pub record Region : Type 0 where
  pub guest_base : ℕ
  pub length : ℕ

-- The output fields of `struct hyper_io_extent`.
pub record Extent : Type 0 where
  pub alias : ℕ
  pub offset : ℕ
  pub length : ℕ

pub record Kernel : Type 0 where
  pub accepts : Trace → Call → Bool  -- the call returns 0
  pub number : Trace → Call → Option ℕ  -- a descriptor, address, index or count; `none` on failure
  pub extent : Trace → Call → Option Extent  -- HYPER_IO_EXTENT
  pub window : Trace → Call → Option Region  -- HYPER_MEMORY_INFO

-- `a || b || c` over calls that return 0 on success: the first failure stops the chain.
unfoldable pub chain : Kernel → List Call → Trace → Bool × Trace
chain k [] t = (true, t)
chain k (c ∷ cs) t = elim (k.accepts t c) [ true ↦ chain k cs (c ∷ t) | false ↦ (false, c ∷ t) ]

-- `if (fd >= 0) close(fd);`
abbrev pub close_some : Option ℕ → Trace → Trace
close_some none t = t
close_some (some fd) t = close_descriptor fd ∷ t
