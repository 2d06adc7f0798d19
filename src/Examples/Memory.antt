-- ===== src/Examples/Memory.antt =====
-- A grant of two pages prepared, and a mapped grant released.
use hype_r_io_vm.Base.{◌≡◌, refl, true, false, none, some, List, [], ◌∷◌, inl, length, arith}
use hype_r_io_vm.Layout.{extent_valid}
use hype_r_io_vm.Service.Calls.{Extent, prove_quiescent, close_descriptor, memory_release, unmap}
use hype_r_io_vm.Service.State.{
  World, ok, quiescence_failed, endpoint_init, idle, no_region, memory_endpoint,
}
use hype_r_io_vm.Service.Retire.{
  endpoint_close, quiesce_disk, quiesce_network, quiesce_all, retire, release_memory,
}
use hype_r_io_vm.Service.Retire.Drain.{IsDrained, Keeps, quiesce_all-IsDrained}
use hype_r_io_vm.Service.Retire.Release.{
  release_memory-idle, release_memory_undrained, release_memory_order,
}
use hype_r_io_vm.Service.Prepare.{PrepareRequest, fill_pages, collect, prepare_memory}
use hype_r_io_vm.Service.Prepare.Pages.{Answers, Tiles, pages_of, collect-Tiles}
use hype_r_io_vm.Service.Prepare.Result.{Prepares, prepare_memory-Prepares}
use hype_r_io_vm.Examples.{willing, unwilling, resting, at_rest, granted}

-- The same client while vhost still runs its disk.
abbrev running : World
running = record granted {
  backend = record (granted.backend) {
    disk = record (granted.backend.disk) { fd = some 20; bound = true; attached = true };
  };
}

drained : (quiesce_all willing running).0 ≡ true
unfolding quiesce_all quiesce_disk quiesce_network endpoint_close endpoint_init
drained = refl

stuck : (quiesce_disk unwilling running).0 ≡ false
unfolding quiesce_disk endpoint_close endpoint_init
stuck = refl

released : (release_memory willing running).0 ≡ ok
unfolding release_memory retire quiesce_all quiesce_disk quiesce_network endpoint_close
    endpoint_init
released = refl

quiesce_all-IsDrained_example :
    let b = (quiesce_all willing running).1.backend in
    IsDrained b.disk × IsDrained b.net × (b.tap ≡ none)
quiesce_all-IsDrained_example = quiesce_all-IsDrained willing running drained

release_memory-idle_example :
    (idle (release_memory willing running).1.backend ≡ true)
    × ((release_memory willing running).1.backend.region ≡ no_region)
release_memory-idle_example = release_memory-idle willing running released

release_memory_undrained_example :
    let w' = (quiesce_network unwilling (quiesce_disk unwilling running).1).1 in
    (release_memory unwilling running ≡ (quiescence_failed, w')) × Keeps running.backend w'.backend
release_memory_undrained_example = release_memory_undrained unwilling running (inl stuck)

release_memory_order_example :
    let b = (quiesce_all willing running).1.backend in
    (release_memory willing running).1.trace
    ≡ prove_quiescent (memory_endpoint b).notification 77
      ∷ close_descriptor 9
      ∷ memory_release (some 9)
      ∷ unmap 1048576 65536
      ∷ (quiesce_all willing running).1.trace
unfolding resting
release_memory_order_example =
    release_memory_order willing running 1048576 9 refl refl refl (omega arith) released

-- A request for two pages under a token.
abbrev request : PrepareRequest
request = record { alias = 0; guest_base = 0; length = 8192; token = 77 }

prepare_memory-Prepares_example :
    Prepares willing request at_rest
      (prepare_memory willing request at_rest).0
      (prepare_memory willing request at_rest).1
prepare_memory-Prepares_example = prepare_memory-Prepares willing request at_rest (omega arith)

collect-Tiles_example :
    (xs : List Extent) × Answers willing (some 5) 0 [] xs
    × (length xs ≡ 1)
    × Tiles 0 xs 8192
    × (8192 ∷ 12288 ∷ [] ≡ pages_of xs)
unfolding collect fill_pages extent_valid
collect-Tiles_example =
    collect-Tiles willing (some 5) 8192 1 [] (8192 ∷ 12288 ∷ []) (omega arith) refl refl
