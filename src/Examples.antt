-- ===== src/Examples.antt =====
-- Concrete backends, kernels and messages, on which the theorems of the library are applied.
pub mod Memory
pub mod Devices
pub mod Disks
pub mod Sessions
pub mod Registry
pub mod Routes
pub mod Inventories
pub mod Guests
use hype_r_io_vm.Base.{
  ℕ, zero, suc, ap, get_or, ◌≡◌, true, false, none, some, List, [], ◌∷◌, replicate, refl, inl,
  arith,
}
use hype_r_io_vm.BlockPolicy.{block_clients, ranges_conflict}
use hype_r_io_vm.Service.Calls.{Kernel}
use hype_r_io_vm.Service.State.{Endpoint, Backend, World, no_region, endpoint_init}
use hype_r_io_vm.Service.Safety.{IsSafe}
use hype_r_io_vm.Block.{BlockOwner, PhysicalDisk, Media, no_range, binding}
use hype_r_io_vm.Block.Bindings.{IsValid}
use hype_r_io_vm.Control.Dispatch.{Outside, State}
use hype_r_io_vm.Control.Serve.Safety.{IsSound}

-- A kernel that accepts every call, with one extent of two pages and a window of one megabyte.
abbrev pub willing : Kernel
willing = record {
  accepts = λ t c. true;
  number = λ t c. some 4096;
  extent = λ t c. some (record { alias = 8192; offset = 0; length = 8192 });
  window = λ t c. some (record { guest_base = 0; length = 1048576 });
}

-- A kernel that refuses every call.
abbrev pub unwilling : Kernel
unwilling = record {
  accepts = λ t c. false;
  number = λ t c. none;
  extent = λ t c. none;
  window = λ t c. none;
}

abbrev pub route : ℕ → Endpoint
unfolding endpoint_init
route fd = record endpoint_init { notification = some fd }

-- A managed client with a storage and a network device, before any request.
abbrev pub resting : Backend
unfolding endpoint_init
resting = record {
  disk = route 5;
  net = route 6;
  memory_fd = none;
  tap = none;
  memory = none;
  region = no_region;
  target = 110 ∷ [];
  managed = true;
  network = true;
  bridge = 98 ∷ [];
  mac = 2 ∷ 0 ∷ 0 ∷ 0 ∷ 0 ∷ 1 ∷ [];
  token = 0;
  scsi = record { request_queues = 1; sg_prealloc = 128 };
  net_resources = record { rx_backlog_packets = 512; tx_buffer_bytes = 0 };
  owner = false;
}

abbrev pub at_rest : World
at_rest = record { backend = resting; trace = [] }

-- The same client with an admitted grant of 64 KiB mapped at 2 ^ 20.
abbrev pub granted : World
granted = record {
  backend = record resting {
    memory = some 1048576;
    memory_fd = some 9;
    token = 77;
    region = record { guest_base = 0; length = 65536 };
  };
  trace = [];
}

pub at_rest-IsSafe : IsSafe at_rest.backend
unfolding endpoint_init
at_rest-IsSafe = ground arith

pub granted-IsSafe : IsSafe granted.backend
unfolding endpoint_init
granted-IsSafe = ground arith

abbrev pub disk : PhysicalDisk
disk = record {
  fd = 12;
  device = 2048;
  bytes = 1048576;
  sequence = 3;
  logical = 512;
  physical = 4096;
  read_only = 0;
}

-- An owner of one disk, with clients 1 and 2 and no bindings.
abbrev pub owner : BlockOwner
owner = record {
  disks = disk ∷ [];
  clients = false ∷ true ∷ true ∷ replicate 125 false;
  bindings = replicate block_clients no_range;
}

abbrev pub media : Media
media = λ d. some (3, 1048576)

abbrev pub outside : Outside
outside = record {
  kernel = willing;
  host = λ log c. true;
  media = media;
  reader = λ fd count offset. some count;
  entries = some [];
}

abbrev pub state : State
state = record { world = at_rest; blocks = owner; log = []; closed = []; fills = [] }

-- HELLO and RELEASE_MEMORY of binding 1, epoch 1, transactions 1 and 2.
abbrev pub hello_message : List ℕ
hello_message =
    72 ∷ 73 ∷ 79 ∷ 49 ∷ 3 ∷ 0 ∷ 1 ∷ 0 ∷ 40 ∷ 0 ∷ 0 ∷ 0 ∷ 0 ∷ 0 ∷ 0 ∷ 0 ∷ 1 ∷ 0 ∷ 0 ∷ 0 ∷ 0 ∷ 0 ∷ 0
    ∷ 0 ∷ 1 ∷ 0 ∷ 0 ∷ 0 ∷ 0 ∷ 0 ∷ 0 ∷ 0 ∷ 1 ∷ 0 ∷ 0 ∷ 0 ∷ 0 ∷ 0 ∷ 0 ∷ 0 ∷ []

abbrev pub release_message : List ℕ
release_message =
    72 ∷ 73 ∷ 79 ∷ 49 ∷ 3 ∷ 0 ∷ 6 ∷ 0 ∷ 40 ∷ 0 ∷ 0 ∷ 0 ∷ 0 ∷ 0 ∷ 0 ∷ 0 ∷ 1 ∷ 0 ∷ 0 ∷ 0 ∷ 0 ∷ 0 ∷ 0
    ∷ 0 ∷ 1 ∷ 0 ∷ 0 ∷ 0 ∷ 0 ∷ 0 ∷ 0 ∷ 0 ∷ 2 ∷ 0 ∷ 0 ∷ 0 ∷ 0 ∷ 0 ∷ 0 ∷ 0 ∷ []

unset : (n i : ℕ) → get_or (replicate n no_range) i no_range ≡ no_range
unset zero i = refl
unset (suc n) zero = refl
unset (suc n) (suc i) = unset n i

unbound : (i : ℕ) → (binding owner i).disk ≡ 0
unbound i = ap (λ r. r.disk) (unset block_clients i)

pub owner-IsValid : IsValid owner
unfolding ranges_conflict
owner-IsValid = record {
  slots = refl;
  bound = λ i. inl (unbound i);
  apart = λ i j ne. ground (arith, unbound i);
  owner_unbound = refl;
}

pub state-IsSound : IsSound state
state-IsSound = record { safe = at_rest-IsSafe; valid = owner-IsValid; small = omega arith }
