-- ===== src/Lib.antt =====
-- Verification of the HypeR I/O VM: the control service that runs one client's vhost devices, the
-- block owner that hands physical disk ranges to clients, the two kernel modules that the service
-- works through, and the readers of the appliance's configuration.
--
-- How the parts interact. A service reads one message at a time (`serve` of service/hyper-io-
-- service.c), admits it to its session (include/hyper_io_session.h), and dispatches it: to the
-- grants of service/memory.c, to the vhost endpoints of service/vhost.c and service/network.c, or,
-- in the process that owns the disks, to service/block.c, which checks ranges by
-- include/hyper_block_policy.h and publishes them by service/block-target.c. The grants come from
-- modules/guest-memory: a device file per client, over one registry of granules that all clients
-- share. The messages and the notifications come through modules/io-bridge: a mailbox file that is
-- read and written, and a notification file on which the service binds eventfds. The services are
-- started by the inventory that service/client-config.c reads, and the network bridges that they
-- use are made by service/hyper-networks.c.
--
-- Which file models what.
--   Base, Bits        Boolean tests, lists over native numbers, powers of two. No source file.
--   Session           include/hyper_io_session.h: hyper_io_session_admit, _preparable, _retire.
--   Layout            include/hyper_io_layout.h: hyper_io_extent_valid, hyper_io_page_aperture.
--   BlockPolicy       include/hyper_block_policy.h: the three predicates.
--   Resources         include/hyper_network.h and include/hyper_scsi_resources.h: the parsers.
--   Granules          modules/guest-memory/granules.c: the registry of granules.
--   Granules.Counted  the users of a granule against its holders.
--   GuestMemory       modules/guest-memory/memory.c: a device's file, preparation and mappings.
--   GuestMemory.Compact  the loop that leaves each granule index once.
--   GuestMemory.Acquire  the loop of acquisitions, and what undoes it.
--   GuestMemory.Prepare  hyper_memory_prepare and hyper_memory_unprepare.
--   GuestMemory.Mappings  a dynamic device among others that share its granules, as a step relation.
--   GuestMemory.Mappings.Parts  a preparation and a release of it in parts.
--   GuestMemory.Device  hyper_memory_probe and hyper_memory_destroy.
--   Bridge.Eventfds   hyper_io_eventfds_valid, hyper_io_wait_ready of include/hyper_io.h.
--   Bridge.State      struct bridge of modules/io-bridge/hyper_io_bridge.c, and unbind.
--   Bridge.Notification  notification_ioctl; Account and Wired: its invariant.
--   Bridge.Mailbox    wait_status, control_read, control_write; Waiting: beside interrupts.
--   Bridge.Device     bridge_irq, bridge_open, bridge_release, bridge_remove, as a step relation.
--   Bridge.Device.Probe  bridge_probe.
--   Config.Clients    hyper_clients_read of service/client-config.c.
--   Config.Networks   service/network-config.c and service/hyper-networks.c.
--   Service.Calls     the system calls that the service makes, and their answers.
--   Service.State     struct endpoint, struct backend of service/backend.h; idle, memory_endpoint.
--   Service.Retire    quiesce_disk, quiesce_network, quiesce_all, endpoint_close, release_memory.
--   Service.Prepare   prepare_memory of service/memory.c.
--   Service.Rings     queue_address and the ring checks of configure_vhost.
--   Service.Configure the rest of configure_vhost.
--   Service.Tap       open_tap, probe_network, create_tap of service/network.c.
--   Service.Activate  activate_disk, activate_network, block_target_ready.
--   Service.Safety    the invariant of a backend.
--   BlockTarget       mapper_create, target_create, block_target_publish.
--   Block             discover_disks, disk_current, bind_range of service/block.c.
--   Block.Read        BLOCK_READ of block_dispatch.
--   Wire              the request records of include/hyper_io.h, read from bytes.
--   Control           dispatch, block_dispatch and serve.
--   Examples          concrete inputs on which the theorems are applied.
--
-- How state and calls are modelled. The state of a client is the record `World`: its `Backend` and
-- the trace of the calls made for it. A function of the service takes the kernel as a parameter
-- (`Kernel`, and `Host` for the calls of a publication): a function from the calls made so far and
-- the call at hand to its answer, so that the theorems hold for every answer, and for answers that
-- change over time. Descriptors and addresses that the code keeps as -1 or MAP_FAILED are
-- options. Integers are natural numbers, with the wrap-around of 64-bit sums and products written
-- out where the code can reach it.
--
-- The kernel modules are modelled the same way: an operation takes what Linux and the hypervisor
-- answer, and what it does to the device is a trace of register accesses and of references taken
-- and given back. A call that holds a lock for all that it does is one step; where the code gives
-- the lock back, or holds none, the steps are apart, and the interrupts, wakeups and removals come
-- between them. hyper_memory_prepare and hyper_granules_put give granules_lock back between two
-- acquisitions or batches; in GuestMemory.Mappings they are therefore also taken in parts, each
-- acquisition and each put being a step, with those of the other devices between them. `sort` is a
-- parameter that is assumed to sort, and the example gives it a sort by insertion.
--
-- Bounds and fuel. The walk over the extents of a grant recurses on their number, the filling of
-- the page table on the pages of an extent. A metadata read runs on fuel equal to its length,
-- and `read_loop-Fills` shows that to be enough, since each `pread` that goes on gives at least a
-- byte. A run of `serve` is a list of rounds, each with the outcome of its read and its write.
--
-- A wait for the mailbox runs on rounds that are given one by one, and `wait_status_ends` says when
-- they are enough; where it stands beside the interrupts it has no bound. The generation of
-- interrupts is not taken modulo 2^64. The counter of a device's mappings and that of a granule's
-- users are 32 bits wide; the runs of GuestMemory.Mappings are those in which they suffice.
--
-- What is not modelled. Runs of a device over reserved memory, whose operations the definitions of
-- GuestMemory cover but which has no granules to lose. The diagnostics and their counter,
-- `backend_error` and the log lines, which change nothing else; `main` of the service with its
-- argument parsing; block_owner_create, which reads the configuration; the loading of the kernel
-- modules; the supervisor; the build and image scripts and the patches to other projects. A
-- `read`, `write` or `pread` that a signal interrupts is taken together with its retry.
pub mod Base
pub mod Bits
pub mod BlockPolicy
pub mod Session
pub mod Layout
pub mod Service
pub mod BlockTarget
pub mod Block
pub mod Wire
pub mod Resources
pub mod Granules
pub mod GuestMemory
pub mod Bridge
pub mod Config
pub mod Control
pub mod Examples
