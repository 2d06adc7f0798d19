-- ===== src/Service/Safety/Keep.antt =====
-- Every operation of the service keeps the invariant, whatever the kernel answers.
use hype_r_io_vm.Base.{arith}
use hype_r_io_vm.Service.Calls.{Kernel}
use hype_r_io_vm.Service.State.{World}
use hype_r_io_vm.Service.Retire.{
  endpoint_close, quiesce_disk, quiesce_network, quiesce_all, retire, release_memory,
}
use hype_r_io_vm.Service.Retire.Drain.{quiesce_all-IsDrained}
use hype_r_io_vm.Service.Safety.{IsSafe}

pub quiesce_disk-IsSafe :
    (k : Kernel) (w : World) → IsSafe w.backend → IsSafe (quiesce_disk k w).1.backend
unfolding quiesce_disk endpoint_close
quiesce_disk-IsSafe k w s = ground arith

pub quiesce_network-IsSafe :
    (k : Kernel) (w : World) → IsSafe w.backend → IsSafe (quiesce_network k w).1.backend
unfolding quiesce_network endpoint_close
quiesce_network-IsSafe k w s = ground arith

pub quiesce_all-IsSafe :
    (k : Kernel) (w : World) → IsSafe w.backend → IsSafe (quiesce_all k w).1.backend
unfolding quiesce_all
quiesce_all-IsSafe k w s = quiesce_network-IsSafe k _ (quiesce_disk-IsSafe k w s)

pub release_memory-IsSafe :
    (k : Kernel) (w : World) → IsSafe w.backend → IsSafe (release_memory k w).1.backend
unfolding release_memory retire
release_memory-IsSafe k w s = ground (arith, quiesce_all-IsSafe k w s, quiesce_all-IsDrained k w)
