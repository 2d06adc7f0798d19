-- ===== src/Service/Safety/Devices.antt =====
-- `configure_vhost`, `activate_disk` and `activate_network` keep the invariant.
use hype_r_io_vm.Base.{ℕ, zero, suc, ◌+◌, ◌≡◌, List, [], ◌∷◌, true, false, arith, is_some, refl}
use hype_r_io_vm.Service.Calls.{Kernel, Device, vhost_scsi, vhost_net}
use hype_r_io_vm.Service.State.{
  Endpoint, World, Status, ok, unsupported, invalid, busy, backend_failure, quiescence_failed,
  network_queues,
}
use hype_r_io_vm.Service.Rings.{Queue, Span}
use hype_r_io_vm.Service.Configure.{
  Side, storage, network, Setup, endpoint, setup_queue, setup_queues, bind_endpoint, start_endpoint,
  configure_vhost,
}
use hype_r_io_vm.Service.Tap.{open_tap, link_tap, create_tap}
use hype_r_io_vm.Service.Activate.{
  ActivateRequest, failed, attach_disk, activate_disk, attach_queues, attach_network,
  activate_network, block_target_ready, epoch32, version_1,
}
use hype_r_io_vm.Service.Safety.{IsSafe, is_live}
use hype_r_io_vm.Service.Safety.Keep.{quiesce_disk-IsSafe, quiesce_network-IsSafe}

-- The loop over the queues changes eventfds alone.
record SameEndpoint (e e' : Endpoint) : Type 0 where
  fd : e'.fd ≡ e.fd
  bound : e'.bound ≡ e.bound
  attached : e'.attached ≡ e.attached
  notification : e'.notification ≡ e.notification

module _ (k : Kernel) where
  setup_queue-SameEndpoint :
      (spans : List Span) (i : ℕ) (q : Queue) (s : Setup)
      → SameEndpoint s.endpoint (setup_queue k spans i q s).1.endpoint
  unfolding setup_queue
  setup_queue-SameEndpoint spans i q s = ground arith

  setup_queues-SameEndpoint :
      (spans : List Span) (i : ℕ) (qs : List Queue) (s : Setup)
      → SameEndpoint s.endpoint (setup_queues k spans i qs s).1.endpoint
  unfolding setup_queues
  setup_queues-SameEndpoint spans i [] s = ground arith
  setup_queues-SameEndpoint spans i (q ∷ qs) s =
      grind (arith, setup_queue-SameEndpoint, setup_queues-SameEndpoint spans (i + 1) qs)

  start_endpoint-IsSafe :
      (side : Side) (device : Device) (epoch features memory : ℕ) (qs : List Queue)
      (spans : List Span) (w : World)
      → IsSafe w.backend
      → is_some w.backend.memory ≡ true
      → is_live (endpoint side w.backend) ≡ false
      → (endpoint side w.backend).attached ≡ false
      → IsSafe (start_endpoint k side device epoch features memory qs spans w).1.backend
  unfolding start_endpoint bind_endpoint
  start_endpoint-IsSafe storage device epoch features memory qs spans w s m l a =
      grind (arith, setup_queues-SameEndpoint)
  start_endpoint-IsSafe network device epoch features memory qs spans w s m l a =
      grind (arith, setup_queues-SameEndpoint)

  configure_vhost-IsSafe :
      (side : Side) (device : Device) (epoch features : ℕ) (qs : List Queue) (count required : ℕ)
      (w : World)
      → IsSafe w.backend
      → IsSafe (configure_vhost k side device epoch features qs count required w).1.backend
  unfolding configure_vhost
  configure_vhost-IsSafe side device epoch features qs count required w s =
      grind (arith, start_endpoint-IsSafe)

  failed-IsSafe : (side : Side) (w : World) → IsSafe w.backend → IsSafe (failed k side w).1.backend
  unfolding failed
  failed-IsSafe storage w s = quiesce_disk-IsSafe k w s
  failed-IsSafe network w s = quiesce_network-IsSafe k w s

  pub block_target_ready_backend : (w : World) → (block_target_ready k w).1.backend ≡ w.backend
  unfolding block_target_ready
  block_target_ready_backend w = ground arith

  -- SET_ENDPOINT is sent to an open endpoint.
  attach_disk-IsSafe :
      (x : Status × World)
      → IsSafe x.1.backend
      → (x.0 ≡ ok → is_some x.1.backend.disk.fd ≡ true)
      → IsSafe (attach_disk k x).1.backend
  unfolding attach_disk
  attach_disk-IsSafe (ok, w) s o = grind (arith, failed-IsSafe storage)
  attach_disk-IsSafe (unsupported, w) s o = failed-IsSafe storage w s
  attach_disk-IsSafe (invalid, w) s o = s
  attach_disk-IsSafe (busy, w) s o = s
  attach_disk-IsSafe (backend_failure, w) s o = failed-IsSafe storage w s
  attach_disk-IsSafe (quiescence_failed, w) s o = failed-IsSafe storage w s

  -- What a successful configuration leaves: a bound, unattached endpoint.
  configure_vhost_ok :
      (side : Side) (device : Device) (epoch features : ℕ) (qs : List Queue) (count required : ℕ)
      (w : World)
      → (configure_vhost k side device epoch features qs count required w).0 ≡ ok
      → let e =
          endpoint side
            (configure_vhost k side device epoch features qs count required w).1.backend in
        (is_some e.fd ≡ true) × (e.bound ≡ true)
  unfolding configure_vhost start_endpoint bind_endpoint
  configure_vhost_ok storage device epoch features qs count required w h =
      grind (arith, setup_queues-SameEndpoint)
  configure_vhost_ok network device epoch features qs count required w h =
      grind (arith, setup_queues-SameEndpoint)

  -- Activating the storage device keeps a safe backend safe, on every path and whatever the
  -- kernel answers.
  pub activate_disk-IsSafe :
      (r : ActivateRequest) (w : World) → IsSafe w.backend → IsSafe (activate_disk k r w).1.backend
  unfolding activate_disk
  activate_disk-IsSafe r w s =
      let w1 = (block_target_ready k w).1 in
      let s1 : IsSafe w1.backend = rw (block_target_ready_backend w) s in
      let wanted = w.backend.scsi.request_queues + 2 in
      let result =
        configure_vhost k storage vhost_scsi (epoch32 r) version_1 r.queues wanted 3 w1 in
      let configured =
        configure_vhost-IsSafe storage vhost_scsi (epoch32 r) version_1 r.queues wanted 3 w1 s1 in
      let usable =
        configure_vhost_ok storage vhost_scsi (epoch32 r) version_1 r.queues wanted 3 w1 in
      let attached = attach_disk-IsSafe result configured (λ done. (usable done).0) in
      ground (arith, s1, attached)

  open_tap-IsSafe :
      (w : World)
      → IsSafe w.backend
      → is_live w.backend.net ≡ true
      → IsSafe (open_tap k w).1.backend × ((open_tap k w).1.backend.net ≡ w.backend.net)
  unfolding open_tap
  open_tap-IsSafe w s l = ground arith

  link_tap_backend : (w : World) → (link_tap k w).1.backend ≡ w.backend
  unfolding link_tap
  link_tap_backend w = ground arith

  create_tap-IsSafe :
      (w : World)
      → IsSafe w.backend
      → is_live w.backend.net ≡ true
      → IsSafe (create_tap k w).1.backend × ((create_tap k w).1.backend.net ≡ w.backend.net)
  unfolding create_tap
  create_tap-IsSafe w s l = ground (arith, open_tap-IsSafe w s l, link_tap_backend (open_tap k w).1)

  attach_queues-IsSafe :
      (left i : ℕ) (w : World)
      → IsSafe w.backend
      → is_some w.backend.net.fd ≡ true
      → IsSafe (attach_queues k left i w).1.backend
  unfolding attach_queues
  attach_queues-IsSafe zero i w s o = s
  attach_queues-IsSafe (suc left) i w s o = grind (arith, attach_queues-IsSafe left (i + 1))

  attach_network-IsSafe :
      (x : Status × World)
      → IsSafe x.1.backend
      → (x.0 ≡ ok → is_some x.1.backend.net.fd ≡ true)
      → IsSafe (attach_network k x).1.backend
  unfolding attach_network
  attach_network-IsSafe (ok, w) s o =
      let w1 = (create_tap k w).1 in
      let made = create_tap-IsSafe w s (ground (arith, o refl)) in
      let joined = attach_queues-IsSafe network_queues 0 w1 made.0 (rw made.1 (o refl)) in
      let undone = failed-IsSafe network w1 made.0 in
      let retried = failed-IsSafe network (attach_queues k network_queues 0 w1).1 joined in
      ground (arith, joined, undone, retried)
  attach_network-IsSafe (unsupported, w) s o = failed-IsSafe network w s
  attach_network-IsSafe (invalid, w) s o = s
  attach_network-IsSafe (busy, w) s o = s
  attach_network-IsSafe (backend_failure, w) s o = failed-IsSafe network w s
  attach_network-IsSafe (quiescence_failed, w) s o = failed-IsSafe network w s

  -- Activating the network device keeps a safe backend safe, on every path and whatever the
  -- kernel answers.
  pub activate_network-IsSafe :
      (r : ActivateRequest) (w : World)
      → IsSafe w.backend
      → IsSafe (activate_network k r w).1.backend
  unfolding activate_network
  activate_network-IsSafe r w s =
      let two = network_queues in
      let result = configure_vhost k network vhost_net (epoch32 r) version_1 r.queues two two w in
      let configured =
        configure_vhost-IsSafe network vhost_net (epoch32 r) version_1 r.queues two two w s in
      let usable = configure_vhost_ok network vhost_net (epoch32 r) version_1 r.queues two two w in
      let attached = attach_network-IsSafe result configured (λ done. (usable done).0) in
      ground (arith, s, attached)
