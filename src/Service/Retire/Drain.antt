-- ===== src/Service/Retire/Drain.antt =====
-- What the drains guarantee of the endpoints, and what they leave alone.
use hype_r_io_vm.Base.{◌≡◌, true, false, none, arith}
use hype_r_io_vm.Service.Calls.{Kernel}
use hype_r_io_vm.Service.State.{Endpoint, Backend, World}
use hype_r_io_vm.Service.Retire.{endpoint_close, quiesce_disk, quiesce_network, quiesce_all}

-- An endpoint that no vhost worker and no notification route can use.
pub record IsDrained (e : Endpoint) : Type 0 where
  pub closed : e.fd ≡ none
  pub unbound : e.bound ≡ false
  pub detached : e.attached ≡ false

-- The grant, the configuration and the notification routes of two backends are the same.
pub record Keeps (b b' : Backend) : Type 0 where
  pub memory : b'.memory ≡ b.memory
  pub memory_fd : b'.memory_fd ≡ b.memory_fd
  pub token : b'.token ≡ b.token
  pub region : b'.region ≡ b.region
  pub target : b'.target ≡ b.target
  pub managed : b'.managed ≡ b.managed
  pub network : b'.network ≡ b.network
  pub owner : b'.owner ≡ b.owner
  pub disk_route : b'.disk.notification ≡ b.disk.notification
  pub net_route : b'.net.notification ≡ b.net.notification

-- A drain of the storage device: on success it is drained, and the network device is untouched.
pub quiesce_disk-IsDrained :
    (k : Kernel) (w : World)
    → (quiesce_disk k w).0 ≡ true
    → IsDrained (quiesce_disk k w).1.backend.disk
unfolding quiesce_disk endpoint_close
quiesce_disk-IsDrained k w h = ground arith

pub quiesce_disk-Keeps : (k : Kernel) (w : World) → Keeps w.backend (quiesce_disk k w).1.backend
unfolding quiesce_disk endpoint_close
quiesce_disk-Keeps k w = ground arith

pub quiesce_disk_net :
    (k : Kernel) (w : World)
    → ((quiesce_disk k w).1.backend.net ≡ w.backend.net)
      × ((quiesce_disk k w).1.backend.tap ≡ w.backend.tap)
unfolding quiesce_disk endpoint_close
quiesce_disk_net k w = ground arith

pub quiesce_network-IsDrained :
    (k : Kernel) (w : World)
    → (quiesce_network k w).0 ≡ true
    → IsDrained (quiesce_network k w).1.backend.net × ((quiesce_network k w).1.backend.tap ≡ none)
unfolding quiesce_network endpoint_close
quiesce_network-IsDrained k w h = ground arith

pub quiesce_network-Keeps :
    (k : Kernel) (w : World) → Keeps w.backend (quiesce_network k w).1.backend
unfolding quiesce_network endpoint_close
quiesce_network-Keeps k w = ground arith

pub quiesce_network_disk :
    (k : Kernel) (w : World) → (quiesce_network k w).1.backend.disk ≡ w.backend.disk
unfolding quiesce_network endpoint_close
quiesce_network_disk k w = ground arith

-- Both drains keep the grant.
pub quiesce_all-Keeps : (k : Kernel) (w : World) → Keeps w.backend (quiesce_all k w).1.backend
unfolding quiesce_all
quiesce_all-Keeps k w =
    let (_, w1) = quiesce_disk k w in
    ground (arith, quiesce_disk-Keeps k w, quiesce_network-Keeps k w1)

-- Where both drains succeed, both endpoints are closed, unbound and detached, and the TAP is
-- gone.
pub quiesce_all-IsDrained :
    (k : Kernel) (w : World)
    → (quiesce_all k w).0 ≡ true
    → let b = (quiesce_all k w).1.backend in IsDrained b.disk × IsDrained b.net × (b.tap ≡ none)
unfolding quiesce_all
quiesce_all-IsDrained k w h =
    let (_, w1) = quiesce_disk k w in
    ground
      (arith, quiesce_disk-IsDrained k w, quiesce_network-IsDrained k w1, quiesce_network_disk k w1)
