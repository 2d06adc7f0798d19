-- ===== src/Service/Activate.antt =====
-- `activate_disk` of service/vhost.c, `activate_network` of service/network.c and
-- `block_target_ready` of service/block-target.c.
use hype_r_io_vm.Base.{
  ℕ, suc, ◌+◌, ◌-◌, ◌%◌, ◌^◌, Bool, true, false, ◌&&◌, ◌||◌, not, List, [], ◌∷◌, ◌==◌, nonzero,
  is_some, bit_and, drop, if◌then◌else◌,
}
use hype_r_io_vm.Layout.{u64_max}
use hype_r_io_vm.Service.Calls.{
  Kernel, vhost_scsi, vhost_net, find_export, scsi_set_endpoint, net_set_backend,
}
use hype_r_io_vm.Service.State.{
  World, Status, ok, unsupported, invalid, busy, backend_failure, quiescence_failed, has_target,
  network_queues,
}
use hype_r_io_vm.Service.Retire.{quiesce_disk, quiesce_network}
use hype_r_io_vm.Service.Rings.{Queue}
use hype_r_io_vm.Service.Configure.{Side, storage, network, configure_vhost}
use hype_r_io_vm.Service.Tap.{create_tap}

-- `struct hyper_io_activate` and `struct hyper_io_network_activate`: the epoch of the header, and
-- the rest.
pub record ActivateRequest : Type 0 where
  pub epoch : ℕ
  pub features : ℕ
  pub queues : List Queue

abbrev pub version_1 : ℕ
version_1 = 2 ^ 32

-- VIRTIO_NET_F_MAC, VIRTIO_NET_F_CSUM, VIRTIO_NET_F_HOST_TSO4 and VIRTIO_NET_F_HOST_TSO6.
abbrev pub network_mac : ℕ
network_mac = 2 ^ 5

abbrev pub network_csum : ℕ
network_csum = 2 ^ 0

abbrev pub network_tso : ℕ
network_tso = 2 ^ 11 + 2 ^ 12

abbrev pub network_features : ℕ
network_features = version_1 + network_mac + network_csum + network_tso

-- The symlink that publishes the LUN is looked up, where the service has a target at all.
unfoldable pub block_target_ready : Kernel → World → Bool × World
block_target_ready k w =
    let call = find_export w.backend.target in
    if has_target w.backend
    then (k.accepts w.trace call, record w { trace = call ∷ w.trace })
    else (false, w)

-- `memcmp` of a queue record with zeros.
abbrev pub is_zero : Queue → Bool
is_zero q = q.size == 0 && q.reserved == 0 && q.descriptor == 0 && q.available == 0 && q.used == 0

abbrev pub all_zero : List Queue → Bool
all_zero [] = true
all_zero (q ∷ qs) = is_zero q && all_zero qs

-- `(uint32_t)le64toh(message->header.epoch)`
abbrev pub epoch32 : ActivateRequest → ℕ
epoch32 r = r.epoch % 2 ^ 32

unfoldable pub failed : Kernel → Side → World → Status × World
failed k storage w =
    let (drained, w') = quiesce_disk k w in
    (if drained then backend_failure else quiescence_failed, w')
failed k network w =
    let (drained, w') = quiesce_network k w in
    (if drained then backend_failure else quiescence_failed, w')

-- After `configure_vhost`: the endpoint is attached, or everything is drained again.
unfoldable pub attach_disk : Kernel → Status × World → Status × World
attach_disk k (busy, w) = (busy, w)
attach_disk k (invalid, w) = (invalid, w)
attach_disk k (ok, w) =
    let b = w.backend in
    let call = scsi_set_endpoint b.disk.fd b.target in
    let t = call ∷ w.trace in
    if k.accepts w.trace call
    then (
      ok,
      record { backend = record b { disk = record (b.disk) { attached = true } }; trace = t },
    )
    else failed k storage (record w { trace = t })
attach_disk k (s, w) = failed k storage w

unfoldable pub activate_disk : Kernel → ActivateRequest → World → Status × World
activate_disk k r w =
    let b = w.backend in
    let wanted = b.scsi.request_queues + 2 in
    let (ready, w1) = block_target_ready k w in
    if not (has_target b)
    then (unsupported, w)
    else if not ready
    then (busy, w1)
    else if not (r.features == version_1)
    then (invalid, w1)
    else if not (all_zero (drop wanted r.queues))
    then (invalid, w1)
    else attach_disk k
        (configure_vhost k storage vhost_scsi (epoch32 r) version_1 r.queues wanted 3 w1)

-- The loop over the two VHOST_NET_SET_BACKEND calls, `left` of them from queue `i` on.
unfoldable pub attach_queues : Kernel → ℕ → ℕ → World → Bool × World
attach_queues k ℕ.zero i w = (true, w)
attach_queues k (suc left) i w =
    let b = w.backend in
    let call = net_set_backend b.net.fd i b.tap in
    let t = call ∷ w.trace in
    let rest =
      attach_queues k left (i + 1)
        (record { backend = record b { net = record (b.net) { attached = true } }; trace = t }) in
    if k.accepts w.trace call then rest else (false, record w { trace = t })

unfoldable pub attach_network : Kernel → Status × World → Status × World
attach_network k (busy, w) = (busy, w)
attach_network k (invalid, w) = (invalid, w)
attach_network k (ok, w) =
    let (created, w1) = create_tap k w in
    let (attached, w2) = attach_queues k network_queues 0 w1 in
    if not created then failed k network w1 else if attached then (ok, w2) else failed k network w2
attach_network k (s, w) = failed k network w

-- `features & ~NETWORK_FEATURES` is a conjunction with the 64-bit complement.
abbrev pub features_offered : ℕ → Bool
features_offered f =
    nonzero (bit_and f version_1)
    && not (nonzero (bit_and f (u64_max - network_features)))
    && not (nonzero (bit_and f network_tso) && not (nonzero (bit_and f network_csum)))

unfoldable pub activate_network : Kernel → ActivateRequest → World → Status × World
activate_network k r w =
    let b = w.backend in
    if not b.network
    then (unsupported, w)
    else if not (features_offered r.features)
    then (invalid, w)
    else if is_some b.net.fd || b.net.bound || is_some b.tap
    then (busy, w)
    else attach_network k (
        configure_vhost k network vhost_net (epoch32 r) version_1 r.queues network_queues
          network_queues w)
