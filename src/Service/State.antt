-- ===== src/Service/State.antt =====
-- `struct endpoint` and `struct backend` of service/backend.h, and the status codes of
-- include/hyper_io.h.
use hype_r_io_vm.Base.{
  ℕ, Bool, true, false, ◌&&◌, not, Option, none, List, [], ◌∷◌, ◌==◌, is_some, replicate,
  if◌then◌else◌,
}
use hype_r_io_vm.Service.Calls.{Region, Trace}

abbrev pub io_queues : ℕ
io_queues = 6

abbrev pub network_queues : ℕ
network_queues = 2

-- HYPER_IO_OK to HYPER_IO_QUIESCENCE_FAILED, in the order of their values.
pub data Status : Type 0 where
  ok unsupported invalid busy backend_failure quiescence_failed : Status

-- A descriptor of -1 is `none`; the arrays have `io_queues` entries.
pub record Endpoint : Type 0 where
  pub notification : Option ℕ
  pub fd : Option ℕ
  pub kick : List (Option ℕ)
  pub call : List (Option ℕ)
  pub bound : Bool
  pub attached : Bool

abbrev pub no_events : List (Option ℕ)
no_events = replicate io_queues none

-- `endpoint_init` over the zeroed structure.
unfoldable pub endpoint_init : Endpoint
endpoint_init = record {
  notification = none;
  fd = none;
  kick = no_events;
  call = no_events;
  bound = false;
  attached = false;
}

-- `struct hyper_scsi_resources`, without its reserved words.
pub record ScsiResources : Type 0 where
  pub request_queues : ℕ
  pub sg_prealloc : ℕ

-- `struct hyper_network_resources`
pub record NetworkResources : Type 0 where
  pub rx_backlog_packets : ℕ
  pub tx_buffer_bytes : ℕ

-- The backend of one client. `memory` is `none` for MAP_FAILED, `target` and `bridge` are the
-- bytes of their strings, and `owner` tells whether `blocks` is set; the block owner's own
-- state is in `Block`. The diagnostics counter, which only rations log lines, is left out.
pub record Backend : Type 0 where
  pub disk : Endpoint
  pub net : Endpoint
  pub memory_fd : Option ℕ
  pub tap : Option ℕ
  pub memory : Option ℕ
  pub region : Region
  pub target : List ℕ
  pub managed : Bool
  pub network : Bool
  pub bridge : List ℕ
  pub mac : List ℕ
  pub token : ℕ
  pub scsi : ScsiResources
  pub net_resources : NetworkResources
  pub owner : Bool

-- The backend, and the calls made for it.
pub record World : Type 0 where
  pub backend : Backend
  pub trace : Trace

abbrev pub no_region : Region
no_region = record { guest_base = 0; length = 0 }

abbrev pub is_empty {ℓ} : {A : Type ℓ} → List A → Bool
is_empty [] = true
is_empty (x ∷ xs) = false

-- `b->target.vhost_wwpn[0]`
abbrev pub has_target : Backend → Bool
has_target b = not (is_empty b.target)

-- `memory_endpoint`
unfoldable pub memory_endpoint : Backend → Endpoint
memory_endpoint b = if has_target b then b.disk else b.net

-- `idle`
unfoldable pub idle : Backend → Bool
idle b =
    not (is_some b.memory)
    && not (is_some b.memory_fd)
    && b.token == 0
    && not (is_some b.disk.fd)
    && not b.disk.bound
    && not (is_some b.net.fd)
    && not b.net.bound
    && not (is_some b.tap)
