-- ===== src/Block.antt =====
-- service/block.c: the owner's physical disks, the range bindings of its clients, and the
-- management requests. What Linux reports of a device is an argument.
pub mod Bindings
pub mod Exclusion
pub mod Discovery
pub mod Read
pub mod Refresh
use hype_r_io_vm.Base.{
  ℕ, zero, suc, ◌+◌, ◌-◌, ◌*◌, ◌%◌, ◌^◌, Bool, true, false, ◌&&◌, ◌||◌, not, Option, none, some,
  List, [], ◌∷◌, ◌++◌, ◌==◌, ltb, leb, nonzero, bit_and, on_option, length, get_elem?, get_or, set,
  drop, if◌then◌else◌,
}
use hype_r_io_vm.BlockPolicy.{BlockRange, block_clients, block_disks, range_valid, ranges_conflict}
use hype_r_io_vm.BlockTarget.{Host, Log, block_target_publish}
use hype_r_io_vm.Service.State.{Status, ok, invalid, busy, backend_failure}

-- `struct physical_disk`
pub record PhysicalDisk : Type 0 where
  pub fd : ℕ
  pub device : ℕ
  pub bytes : ℕ
  pub sequence : ℕ
  pub logical : ℕ
  pub physical : ℕ
  pub read_only : ℕ

-- `struct block_owner`: `disk_count` is the length of `disks`; `clients` and `bindings` have
-- `block_clients` entries.
pub record BlockOwner : Type 0 where
  pub disks : List PhysicalDisk
  pub clients : List Bool
  pub bindings : List BlockRange

abbrev pub no_range : BlockRange
no_range = record { disk = 0; first = 0; count = 0; read_only = 0 }

abbrev pub binding : BlockOwner → ℕ → BlockRange
binding o i = get_or o.bindings i no_range

-- What BLKGETDISKSEQ and BLKGETSIZE64 report now; nothing where one of them fails.
abbrev pub Media : Type 0
Media = PhysicalDisk → Option (ℕ × ℕ)

unfoldable pub disk_current : Media → PhysicalDisk → Bool
disk_current media d =
    on_option (media d) false λ (sequence, bytes). sequence == d.sequence && bytes == d.bytes

-- `struct hyper_io_block_bind`, without its header.
pub record BindRequest : Type 0 where
  pub client : ℕ
  pub flags : ℕ
  pub disk : ℕ
  pub first_lba : ℕ
  pub sectors : ℕ

abbrev pub range_of : BindRequest → BlockRange
range_of r = record { disk = r.disk; first = r.first_lba; count = r.sectors; read_only = r.flags }

abbrev pub same_range : BlockRange → BlockRange → Bool
same_range a b =
    a.disk == b.disk && a.first == b.first && a.count == b.count && a.read_only == b.read_only

-- The loop over the bindings, from the first client on.
unfoldable pub any_conflict : List BlockRange → BlockRange → Bool
any_conflict [] r = false
any_conflict (b ∷ bs) r = ranges_conflict b r || any_conflict bs r

-- The end of `bind_range`: publication, then the table entry.
unfoldable pub publish_range :
    Host → PhysicalDisk → ℕ → BlockRange → BlockOwner → Log → Status × BlockOwner × Log
publish_range host d client r o log =
    let (published, log') = block_target_publish host client d.device d.logical r log in
    if published
    then (ok, record o { bindings = set o.bindings client r }, log')
    else (backend_failure, o, log')

unfoldable pub bind_range :
    Host → Media → BindRequest → BlockOwner → Log → Status × BlockOwner × Log
bind_range host media q o log =
    let r = range_of q in
    let old = binding o q.client in
    if q.client == 0
      || leb block_clients q.client
      || not (get_or o.clients q.client false)
      || r.disk == 0
      || ltb (length o.disks) r.disk
    then (invalid, o, log)
    else on_option (get_elem? o.disks (r.disk - 1)) (invalid, o, log)
        λ d.
          if not (disk_current media d)
          then (backend_failure, o, log)
          else if not (range_valid d.bytes d.logical d.read_only r)
          then (invalid, o, log)
          else if nonzero old.disk
          then (if same_range old r then ok else busy, o, log)
          else if any_conflict (drop 1 o.bindings) r
          then (busy, o, log)
          else publish_range host d q.client r o log

-- What opening `/dev/NAME` gives; `pending` is ENOENT, ENXIO or ENOMEDIUM.
pub data Opening : Type 0 where
  opened : ℕ → Opening
  pending broken : Opening

-- What fstat and the five ioctls report, where all of them succeed on a block device.
pub record Geometry : Type 0 where
  pub device : ℕ
  pub bytes : ℕ
  pub sequence : ℕ
  pub logical : ℕ
  pub physical : ℕ
  pub read_only : ℕ

-- One name of `/sys/class/block`.
pub record Entry : Type 0 where
  pub hidden : Bool
  pub partition : Bool
  pub backed : Bool
  pub opening : Opening
  pub geometry : Option Geometry

abbrev pub bad_geometry : Geometry → Bool
bad_geometry g =
    g.bytes == 0
    || ltb g.logical 512
    || ltb 65536 g.logical
    || nonzero (bit_and g.logical (g.logical - 1))
    || nonzero (g.bytes % g.logical)
    || ltb g.physical g.logical
    || nonzero (bit_and g.physical (g.physical - 1))

unfoldable pub find_device : List PhysicalDisk → ℕ → Option PhysicalDisk
find_device [] device = none
find_device (d ∷ ds) device = if d.device == device then some d else find_device ds device

-- The disks, and the descriptors that were closed again.
pub record Inventory : Type 0 where
  pub disks : List PhysicalDisk
  pub closed : List ℕ

abbrev pub close_fd : ℕ → Inventory → Inventory
close_fd fd v = record v { closed = fd ∷ v.closed }

-- What is kept of a disk that was opened and measured.
abbrev pub disk_of : ℕ → Geometry → PhysicalDisk
disk_of fd g = record {
  fd = fd;
  device = g.device;
  bytes = g.bytes;
  sequence = g.sequence;
  logical = g.logical;
  physical = g.physical;
  read_only = g.read_only;
}

-- A disk that was opened and measured: known already, refused, or appended.
unfoldable pub admit_disk : ℕ → Geometry → Inventory → Bool × Inventory
admit_disk fd g v = elim (find_device v.disks g.device) [
  | some old ↦ (
    old.sequence == g.sequence && old.bytes == g.bytes && old.logical == g.logical,
    close_fd fd v,
  )
  | none ↦
      if length v.disks == block_disks
      then (false, close_fd fd v)
      else (true, record v { disks = v.disks ++ disk_of fd g ∷ [] })
]

-- The body of the loop, after the names that are passed over.
unfoldable pub examine : Opening → Option Geometry → Inventory → Bool × Inventory
examine pending geometry v = (true, v)
examine broken geometry v = (false, v)
examine (opened fd) none v = (false, close_fd fd v)
examine (opened fd) (some g) v =
    if bad_geometry g then (false, close_fd fd v) else admit_disk fd g v

abbrev pub passed_over : Entry → Bool
passed_over e = e.hidden || e.partition || not e.backed

-- The loop of `discover_disks` over the names in order; a failure ends it.
unfoldable pub examine_entries : List Entry → Inventory → Bool × Inventory
examine_entries [] v = (true, v)
examine_entries (e ∷ es) v =
    let (fine, v') = if passed_over e then (true, v) else examine e.opening e.geometry v in
    let rest = examine_entries es v' in if fine then rest else (false, v')

-- What `scandir` gives: the names in order, or nothing where it fails.
unfoldable pub discover_disks : Option (List Entry) → Inventory → Bool × Inventory
discover_disks none v = (false, v)
discover_disks (some es) v = examine_entries es v
