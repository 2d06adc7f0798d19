-- ===== src/Wire.antt =====
-- The request records of include/hyper_io.h, read from the bytes of a message. All integers are
-- little-endian; the offsets are those of the packed structures.
use hype_r_io_vm.Base.{ℕ, zero, suc, ◌+◌, ◌*◌, List, [], ◌∷◌, get_or}
use hype_r_io_vm.Service.Rings.{Queue}
use hype_r_io_vm.Service.Prepare.{PrepareRequest}
use hype_r_io_vm.Service.Activate.{ActivateRequest}
use hype_r_io_vm.Block.{BindRequest}

-- `le16toh`, `le32toh` and `le64toh` of the `width` bytes at `offset`.
unfoldable pub le : ℕ → ℕ → List ℕ → ℕ
le zero offset bytes = 0
le (suc width) offset bytes = get_or bytes offset 0 + 256 * le width (offset + 1) bytes

-- `struct hyper_io_header`, 40 bytes.
pub record Header : Type 0 where
  pub magic : ℕ
  pub version : ℕ
  pub operation : ℕ
  pub length : ℕ
  pub flags : ℕ
  pub binding : ℕ
  pub epoch : ℕ
  pub transaction : ℕ

unfoldable pub header_of : List ℕ → Header
unfolding le
header_of m = record {
  magic = le 4 0 m;
  version = le 2 4 m;
  operation = le 2 6 m;
  length = le 4 8 m;
  flags = le 4 12 m;
  binding = le 8 16 m;
  epoch = le 8 24 m;
  transaction = le 8 32 m;
}

-- `count` records of 32 bytes from `offset`.
unfoldable pub queues_at : ℕ → ℕ → List ℕ → List Queue
unfolding le
queues_at zero offset m = []
queues_at (suc count) offset m =
    record {
      size = le 4 offset m;
      reserved = le 4 (offset + 4) m;
      descriptor = le 8 (offset + 8) m;
      available = le 8 (offset + 16) m;
      used = le 8 (offset + 24) m;
    }
    ∷ queues_at count (offset + 32) m

-- `struct hyper_io_activate` has six queues, `struct hyper_io_network_activate` two.
unfoldable pub activate_of : ℕ → List ℕ → ActivateRequest
unfolding le queues_at
activate_of count m = record {
  epoch = le 8 24 m;
  features = le 8 40 m;
  queues = queues_at count 48 m;
}

unfoldable pub prepare_of : List ℕ → PrepareRequest
unfolding le
prepare_of m = record {
  alias = le 8 40 m;
  guest_base = le 8 48 m;
  length = le 8 56 m;
  token = le 8 64 m;
}

unfoldable pub bind_of : List ℕ → BindRequest
unfolding le
bind_of m = record {
  client = le 4 40 m;
  flags = le 4 44 m;
  disk = le 8 48 m;
  first_lba = le 8 56 m;
  sectors = le 8 64 m;
}

-- `struct hyper_io_block_read`, without its header.
pub record ReadRequest : Type 0 where
  pub disk : ℕ
  pub offset : ℕ
  pub length : ℕ
  pub memory_offset : ℕ

unfoldable pub read_of : List ℕ → ReadRequest
unfolding le
read_of m = record {
  disk = le 8 40 m;
  offset = le 8 48 m;
  length = le 8 56 m;
  memory_offset = le 8 64 m;
}
