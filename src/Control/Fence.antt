-- ===== src/Control/Fence.antt =====
-- The fence that a release puts between two clients.
use hype_r_io_vm.Base.{ℕ, ◌≡◌, ◌≢◌, true, List, arith}
use hype_r_io_vm.Session.{Session, preparable, retire}
use hype_r_io_vm.Service.State.{ok, invalid, idle, no_region}
use hype_r_io_vm.Service.Retire.Release.{release_memory-idle}
use hype_r_io_vm.Control.Op
use hype_r_io_vm.Control.Dispatch.{plain, Outside, State, switch, dispatch}

switch_release : (x : Outside) (m : List ℕ) (s : State) → (switch x Op.release_memory m s).0 ≢ ok
unfolding switch
switch_release x m s h = ground arith

-- A RELEASE_MEMORY that succeeds leaves the backend idle with an empty region, and the session
-- that it retires carries out no other request: each is answered INVALID and changes nothing.
pub release_fence :
    (x y : Outside) (m n : List ℕ) (operation : ℕ) (session : Session) (s : State)
    → (dispatch x Op.release_memory m session s).0.0 ≡ ok
    → operation ≢ Op.release_memory
    → let (answered, after) = dispatch x Op.release_memory m session s in
      (idle answered.2.world.backend ≡ true)
      × (answered.2.world.backend.region ≡ no_region)
      × (dispatch y operation n after answered.2 ≡ ((invalid, plain, answered.2), after))
unfolding dispatch preparable retire
release_fence x y m n operation session s h other =
    ground (arith, switch_release x m s, release_memory-idle x.kernel s.world)
