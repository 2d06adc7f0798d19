-- ===== src/Service/Retire/Release.antt =====
-- What `release_memory` guarantees on each of its paths.
use hype_r_io_vm.Base.{ℕ, ◌≡◌, ◌≢◌, ◌⊎◌, true, false, none, some, arith, ◌∷◌}
use hype_r_io_vm.Service.Calls.{Kernel, prove_quiescent, close_descriptor, memory_release, unmap}
use hype_r_io_vm.Service.State.{World, ok, quiescence_failed, idle, no_region, memory_endpoint}
use hype_r_io_vm.Service.Retire.{quiesce_disk, quiesce_network, quiesce_all, retire, release_memory}
use hype_r_io_vm.Service.Retire.Drain.{
  Keeps, quiesce_disk-Keeps, quiesce_network-Keeps, quiesce_all-IsDrained, quiesce_all-Keeps,
}

-- A release that succeeds leaves the backend idle with an empty region.
pub release_memory-idle :
    (k : Kernel) (w : World)
    → (release_memory k w).0 ≡ ok
    → (idle (release_memory k w).1.backend ≡ true)
      × ((release_memory k w).1.backend.region ≡ no_region)
unfolding release_memory retire idle
release_memory-idle k w h = ground (arith, quiesce_all-IsDrained k w)

-- Where the storage drain fails, or the network drain that is run after it whatever became of
-- the first, the release fails with the world that the two drains leave: no further call is
-- made, and the mapping, its descriptor, the region and the token are those before.
pub release_memory_undrained :
    (k : Kernel) (w : World)
    → ((quiesce_disk k w).0 ≡ false) ⊎ ((quiesce_network k (quiesce_disk k w).1).0 ≡ false)
    → let w' = (quiesce_network k (quiesce_disk k w).1).1 in
      (release_memory k w ≡ (quiescence_failed, w')) × Keeps w.backend w'.backend
unfolding release_memory retire quiesce_all
release_memory_undrained k w h =
    let (_, w1) = quiesce_disk k w in
    ground (arith, quiesce_disk-Keeps k w, quiesce_network-Keeps k w1)

-- A token is given up only by a release that succeeds.
pub release_memory-token :
    (k : Kernel) (w : World)
    → (release_memory k w).0 ≢ ok
    → ((release_memory k w).1.backend.token ≡ w.backend.token)
      × ((release_memory k w).1.backend.region ≡ w.backend.region)
unfolding release_memory retire
release_memory-token k w h = ground (arith, quiesce_all-Keeps k w)

-- The order of a release that succeeds, of a managed client whose grant is mapped and has a
-- token: the drains, `munmap`, HYPER_MEMORY_RELEASE, `close`, and last the quiescence proof on
-- the admitting route; these and no other calls.
pub release_memory_order :
    (k : Kernel) (w : World) (address fd : ℕ)
    → w.backend.memory ≡ some address
    → w.backend.memory_fd ≡ some fd
    → w.backend.managed ≡ true
    → w.backend.token ≢ 0
    → (release_memory k w).0 ≡ ok
    → let b = (quiesce_all k w).1.backend in
      (release_memory k w).1.trace
      ≡ prove_quiescent (memory_endpoint b).notification w.backend.token
        ∷ close_descriptor fd
        ∷ memory_release (some fd)
        ∷ unmap address w.backend.region.length
        ∷ (quiesce_all k w).1.trace
unfolding release_memory retire memory_endpoint
release_memory_order k w address fd m f managed t h = ground (arith, quiesce_all-Keeps k w)

-- No release maps memory.
pub release_memory_unmaps :
    (k : Kernel) (w : World)
    → w.backend.memory ≡ none
    → (release_memory k w).1.backend.memory ≡ none
unfolding release_memory retire
release_memory_unmaps k w h = ground (arith, quiesce_all-Keeps k w)
