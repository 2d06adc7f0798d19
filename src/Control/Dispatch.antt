-- ===== src/Control/Dispatch.antt =====
-- `block_dispatch` of service/block.c and `dispatch` of service/hyper-io-service.c: one request,
-- whose session has been admitted, on the whole state of a service.
use hype_r_io_vm.Base.{
  ℕ, ◌+◌, Bool, true, false, ◌&&◌, ◌||◌, not, Option, none, some, List, ◌==◌, ltb, leb, nonzero,
  is_some, on_option, length, get_elem?, if◌then◌else◌,
}
use hype_r_io_vm.Session.{Session, preparable, retire}
use hype_r_io_vm.Service.Calls.{Kernel}
use hype_r_io_vm.Service.State.{
  Backend, World, Status, ok, unsupported, invalid, busy, backend_failure, quiescence_failed,
  has_target, io_queues, network_queues,
}
use hype_r_io_vm.Service.Retire.{quiesce_disk, quiesce_network, release_memory}
use hype_r_io_vm.Service.Prepare.{prepare_memory, block_max_read}
use hype_r_io_vm.Service.Activate.{
  activate_disk, activate_network, block_target_ready, version_1, network_features,
}
use hype_r_io_vm.BlockTarget.{Host, Log}
use hype_r_io_vm.Block.{
  PhysicalDisk, BlockOwner, Media, Entry, Inventory, bind_range, discover_disks,
}
use hype_r_io_vm.Block.Read.{Reader, Fill, block_read}
use hype_r_io_vm.Control.Op
use hype_r_io_vm.Wire.{le, activate_of, prepare_of, bind_of, read_of}

-- What a reply holds behind its first 48 bytes.
pub data Body : Type 0 where
  plain : Body
  hello : ℕ → ℕ → ℕ → Body
  network_hello : ℕ → ℕ → ℕ → List ℕ → ℕ → Body
  block_hello : ℕ → ℕ → Body
  block_info : ℕ → ℕ → ℕ → ℕ → ℕ → ℕ → Body

-- `*reply_size`
abbrev pub reply_size : Body → ℕ
reply_size plain = 48
reply_size (hello features queues queue_max) = 64
reply_size (network_hello features queues queue_max mac mtu) = 80
reply_size (block_hello capabilities max_read) = 64
reply_size (block_info disk bytes logical physical flags next) = 80

-- What answers the service while it serves one request.
pub record Outside : Type 0 where
  pub kernel : Kernel
  pub host : Host
  pub media : Media
  pub reader : Reader
  pub entries : Option (List Entry)

-- The backend with its calls, the block owner with its publications, the descriptors that
-- an enumeration closed, and the last writes into the scratch memory.
pub record State : Type 0 where
  pub world : World
  pub blocks : BlockOwner
  pub log : Log
  pub closed : List ℕ
  pub fills : List Fill

abbrev pub Response : Type 0
Response = Status × Body × State

-- The entry of the disk at `cursor`, or an empty one at the end.
abbrev pub info_of : List PhysicalDisk → ℕ → Body
info_of disks cursor = on_option (get_elem? disks cursor) (block_info 0 0 0 0 0 0) λ d.
    block_info (cursor + 1) d.bytes d.logical d.physical (if nonzero d.read_only then 1 else 0)
      (cursor + 1)

-- Cursor zero refreshes the inventory first.
unfoldable pub refresh : Outside → ℕ → State → Bool × Inventory
refresh x cursor s =
    let v : Inventory = record { disks = s.blocks.disks; closed = s.closed } in
    if cursor == 0 then discover_disks x.entries v else (true, v)

unfoldable pub block_enum : Outside → ℕ → ℕ → State → Response
block_enum x cursor reserved s =
    let (fine, v) = refresh x cursor s in
    let s' = record s { blocks = record (s.blocks) { disks = v.disks }; closed = v.closed } in
    if nonzero reserved
    then (invalid, plain, s)
    else if not fine
    then (backend_failure, plain, s')
    else if ltb (length v.disks) cursor
    then (invalid, plain, s')
    else (ok, info_of v.disks cursor, s')

-- The bytes of the mapped scratch memory, if it is mapped.
abbrev pub mapped_bytes : Backend → Option ℕ
mapped_bytes b = if is_some b.memory then some b.region.length else none

unfoldable pub block_dispatch : Outside → ℕ → List ℕ → State → Response
block_dispatch x operation m s =
    let size = length m in
    let (status, fills) =
      block_read x.reader x.media (read_of m) (mapped_bytes s.world.backend) s.blocks in
    let (bound, o, log) = bind_range x.host x.media (bind_of m) s.blocks s.log in
    if not s.world.backend.owner
    then (unsupported, plain, s)
    else if operation == Op.block_hello && size == 40
    then (ok, block_hello 7 block_max_read, s)
    else if operation == Op.block_enum && size == 48
    then block_enum x (le 4 40 m) (le 4 44 m) s
    else if operation == Op.block_read && size == 72
    then (status, plain, record s { fills = fills })
    else if operation == Op.block_bind && size == 72
    then (bound, plain, record s { blocks = o; log = log })
    else (invalid, plain, s)

-- A step of the service that answers with a status alone.
abbrev pub answer : State → Status × World → Response
answer s (status, w) = (status, plain, record s { world = w })

-- HELLO of the storage device.
unfoldable pub hello_disk : Outside → State → Response
hello_disk x s =
    let b = s.world.backend in
    let (ready, w) = block_target_ready x.kernel s.world in
    if not (has_target b)
    then (unsupported, plain, s)
    else if not ready
    then (busy, plain, record s { world = w })
    else (ok, hello version_1 (b.scsi.request_queues + 2) 128, record s { world = w })

unfoldable pub hello_network : State → Response
hello_network s =
    let b = s.world.backend in
    if not b.network
    then (unsupported, plain, s)
    else (ok, network_hello network_features network_queues 128 b.mac 1500, s)

-- RESET and STOP_QUEUE of either device.
unfoldable pub stop_device : Outside → Bool → Bool → List ℕ → State → Response
stop_device x network queue_stop m s =
    let b = s.world.backend in
    let limit = if network then network_queues else io_queues in
    let (drained, w) =
      if network then quiesce_network x.kernel s.world else quiesce_disk x.kernel s.world in
    if not (length m == (if queue_stop then 48 else 40))
    then (invalid, plain, s)
    else if (network && not b.network) || (not network && not (has_target b))
    then (unsupported, plain, s)
    else if queue_stop && (nonzero (le 4 44 m) || leb limit (le 4 40 m))
    then (invalid, plain, s)
    else (if drained then ok else quiescence_failed, plain, record s { world = w })

-- The `switch` on the operation.
unfoldable pub switch : Outside → ℕ → List ℕ → State → Response
switch x operation m s =
    let size = length m in
    let w = s.world in
    if operation == Op.hello
    then (if size == 40 then hello_disk x s else (invalid, plain, s))
    else if operation == Op.network_hello
    then (if size == 40 then hello_network s else (invalid, plain, s))
    else if operation == Op.prepare_memory
    then (if size == 72 && w.backend.managed
        then answer s (prepare_memory x.kernel (prepare_of m) w)
        else (invalid, plain, s))
    else if operation == Op.activate
    then (if size == 240
        then answer s (activate_disk x.kernel (activate_of io_queues m) w)
        else (invalid, plain, s))
    else if operation == Op.network_activate
    then (if size == 112
        then answer s (activate_network x.kernel (activate_of network_queues m) w)
        else (invalid, plain, s))
    else if operation == Op.reset
    then stop_device x false false m s
    else if operation == Op.stop_queue
    then stop_device x false true m s
    else if operation == Op.network_reset
    then stop_device x true false m s
    else if operation == Op.network_stop_queue
    then stop_device x true true m s
    else (unsupported, plain, s)

-- `dispatch`; a release that succeeds retires the session.
unfoldable pub dispatch : Outside → ℕ → List ℕ → Session → State → Response × Session
dispatch x operation m session s =
    let (released, w) = release_memory x.kernel s.world in
    if operation == Op.release_memory && length m == 40 && s.world.backend.managed
    then (answer s (released, w), elim released [ ok ↦ retire session | _ ↦ session ])
    else if not (preparable session)
    then ((invalid, plain, s), session)
    else if leb Op.block_hello operation && leb operation Op.block_bind
    then (block_dispatch x operation m s, session)
    else (switch x operation m s, session)
