-- ===== src/Control/Serve/Safety.antt =====
-- The invariant of a service over its whole control loop: the safety of the backend, a valid
-- table of bindings, and an inventory within its limit.
use hype_r_io_vm.Base.{
  ℕ, ◌≤◌, ◌≡◌, Bool, true, false, ◌&&◌, ltb, if◌then◌else◌, refl, none, List, length, ◌==◌, arith,
  Bool-cases, Option-cases, inl, inr,
}
use hype_r_io_vm.BlockPolicy.{block_disks}
use hype_r_io_vm.Session.{Session, Admission, refused, same, rebound}
use hype_r_io_vm.Service.State.{World, Status, io_queues, network_queues}
use hype_r_io_vm.Wire.{header_of, prepare_of, activate_of, bind_of}
use hype_r_io_vm.Service.Retire.{release_memory}
use hype_r_io_vm.Service.Prepare.{prepare_memory}
use hype_r_io_vm.Service.Activate.{activate_disk, activate_network, block_target_ready}
use hype_r_io_vm.Service.Safety.{IsSafe}
use hype_r_io_vm.Service.Safety.Keep.{
  quiesce_disk-IsSafe, quiesce_network-IsSafe, release_memory-IsSafe,
}
use hype_r_io_vm.Service.Safety.Grant.{prepare_memory-IsSafe}
use hype_r_io_vm.Service.Safety.Devices.{
  activate_disk-IsSafe, activate_network-IsSafe, block_target_ready_backend,
}
use hype_r_io_vm.Block.{Inventory, bind_range, BindRequest}
use hype_r_io_vm.Block.Read.{Fill}
use hype_r_io_vm.Block.Bindings.{IsValid, bind_range-IsValid, bind_range_disks}
use hype_r_io_vm.Block.Discovery.{discover_disks-Extends}
use hype_r_io_vm.Block.Refresh.{discover_disks-IsValid}
use hype_r_io_vm.Control.Dispatch.{
  Body, plain, refresh, Outside, State, Response, block_enum, block_dispatch, answer, hello_disk,
  hello_network, stop_device, switch, dispatch,
}
use hype_r_io_vm.Control.Serve.Steps.{serve_induct}
use hype_r_io_vm.Control.Serve.{
  Server, Round, is_admitted, replayed, adopt, admit_message, answer_fresh, settle, respond, serve,
}

-- What holds of a service's state between any two requests.
pub record IsSound (s : State) : Type 0 where
  pub safe : IsSafe s.world.backend
  pub valid : IsValid s.blocks
  pub small : length s.blocks.disks ≤ block_disks

module _ (x : Outside) where
  -- Shut, so that the search sees one fact and not its fields.
  Kept : Response → Type 0
  Kept r = IsSound r.2

  module _ (s : State) where
    Refreshed : Inventory → Type 0
    Refreshed i = IsValid (record (s.blocks) { disks = i.disks }) × (length i.disks ≤ block_disks)

  module _ (s : State) (v : IsSound s) where
    stays : (status : Status) (body : Body) → Kept (status, body, s)
    unfolding Kept
    stays status body = v

    moves :
        (status : Status) (body : Body) (w : World)
        → IsSafe w.backend
        → Kept (status, body, record s { world = w })
    unfolding Kept
    moves status body w safe = record { safe = safe; valid = v.valid; small = v.small }

    answer_lem : (a : Status × World) → IsSafe a.1.backend → Kept (answer s a)
    answer_lem (status, w) safe = moves status _ w safe

    stop_device-Kept :
        (network queue_stop : Bool) (m : List ℕ) → Kept (stop_device x network queue_stop m s)
    unfolding stop_device
    stop_device-Kept false queue_stop m =
        let drained = quiesce_disk-IsSafe x.kernel s.world v.safe in
        grind (arith, stays, moves, drained)
    stop_device-Kept true queue_stop m =
        let drained = quiesce_network-IsSafe x.kernel s.world v.safe in
        grind (arith, stays, moves, drained)

    hello_disk-Kept : Kept (hello_disk x s)
    unfolding hello_disk
    hello_disk-Kept =
        let same : IsSafe (block_target_ready x.kernel s.world).1.backend =
          rw (block_target_ready_backend x.kernel s.world) v.safe in
        grind (arith, stays, moves, same)

    hello_network-Kept : Kept (hello_network s)
    unfolding hello_network
    hello_network-Kept = grind (arith, stays)

    switch-Kept : (operation : ℕ) (m : List ℕ) → Kept (switch x operation m s)
    unfolding switch
    switch-Kept operation m = grind (
      arith,
      stays,
      stop_device-Kept,
      hello_disk-Kept,
      hello_network-Kept,
      answer_lem (prepare_memory x.kernel (prepare_of m) s.world)
          (prepare_memory-IsSafe x.kernel (prepare_of m) s.world v.safe),
      answer_lem (activate_disk x.kernel (activate_of io_queues m) s.world)
          (activate_disk-IsSafe x.kernel (activate_of io_queues m) s.world v.safe),
      answer_lem (activate_network x.kernel (activate_of network_queues m) s.world)
          (activate_network-IsSafe x.kernel (activate_of network_queues m) s.world v.safe),
    )

    refreshed : (cursor : ℕ) → Refreshed s (refresh x cursor s).1
    unfolding Refreshed refresh
    refreshed cursor = elim (Bool-cases (cursor == 0)) [
      | inl again ↦ rw again (
        discover_disks-IsValid x.entries s.blocks s.closed v.small v.valid,
        (discover_disks-Extends x.entries (record { disks = s.blocks.disks; closed = s.closed })
            v.small).1,
      )
      | inr old ↦ rw old (v.valid, v.small)
    ]

    enumerates :
        (status : Status) (body : Body) (i : Inventory)
        → Refreshed s i
        → Kept (
          status,
          body,
          record s { blocks = record (s.blocks) { disks = i.disks }; closed = i.closed },
        )
    unfolding Kept Refreshed
    enumerates status body i (valid, small) = record { safe = v.safe; valid = valid; small = small }

    block_enum-Kept : (cursor reserved : ℕ) → Kept (block_enum x cursor reserved s)
    unfolding block_enum
    block_enum-Kept cursor reserved = grind (arith, stays, enumerates, refreshed cursor)

    binds :
        (q : BindRequest)
        → let (status, o, log) = bind_range x.host x.media q s.blocks s.log in
          Kept (status, plain, record s { blocks = o; log = log })
    unfolding Kept
    binds q = record {
      safe = v.safe;
      valid = bind_range-IsValid x.host x.media q s.blocks s.log v.valid;
      small = rw (bind_range_disks x.host x.media q s.blocks s.log) v.small;
    }

    fills_lem :
        (status : Status) (fills : List Fill) → Kept (status, plain, record s { fills = fills })
    unfolding Kept
    fills_lem status fills = record { safe = v.safe; valid = v.valid; small = v.small }

    block_dispatch-Kept : (operation : ℕ) (m : List ℕ) → Kept (block_dispatch x operation m s)
    unfolding block_dispatch
    block_dispatch-Kept operation m =
        grind (arith, stays, binds (bind_of m), fills_lem, block_enum-Kept)

    released : let w = release_memory x.kernel s.world in Kept (answer s w)
    released =
        answer_lem (release_memory x.kernel s.world) (release_memory-IsSafe x.kernel s.world v.safe)

    dispatch-Kept :
        (operation : ℕ) (m : List ℕ) (session : Session) → Kept (dispatch x operation m session s).0
    unfolding dispatch
    dispatch-Kept operation m session =
        grind (arith, stays, released, switch-Kept, block_dispatch-Kept)

  -- No request, well formed or not, breaks the invariant.
  pub dispatch-IsSound :
      (operation : ℕ) (m : List ℕ) (session : Session) (s : State)
      → IsSound s
      → IsSound (dispatch x operation m session s).0.2
  unfolding Kept
  dispatch-IsSound operation m session s v = dispatch-Kept s v operation m session

adopt_state : (v : Server) (a : Admission × Session) → (adopt v a).state ≡ v.state
adopt_state v (refused, session) = refl
adopt_state v (same, session) = refl
adopt_state v (rebound, session) = refl

module _ (x : Outside) where
  answer_fresh-IsSound :
      (admitted : Bool) (m : List ℕ) (v : Server)
      → IsSound v.state
      → IsSound (answer_fresh x admitted m v).1.state
  unfolding answer_fresh
  answer_fresh-IsSound admitted m v sound =
      let h = header_of m in
      let served = dispatch-IsSound x h.operation m v.session v.state sound in
      elim (Bool-cases (admitted && ltb v.last_transaction h.transaction)) [
        | inl fresh_one ↦ rw fresh_one served
        | inr stale ↦ rw stale sound
      ]

  -- One message keeps the invariant, whatever its bytes say.
  pub respond-IsSound :
      (v : Server) (m : List ℕ) → IsSound v.state → IsSound (respond x v m).1.state
  unfolding respond settle
  respond-IsSound v m sound =
      let a = admit_message v m in
      let adopted : IsSound (adopt v a).state = rw (adopt_state v a) sound in
      let fresh_answer = answer_fresh-IsSound (is_admitted a.0) m (adopt v a) adopted in
      elim (Option-cases
        (if is_admitted a.0 then replayed (adopt v a) (header_of m).transaction m else none)) [
          | inl none_old ↦ rw none_old fresh_answer
          | inr (reply, old) ↦ rw old adopted
        ]

-- The whole loop keeps the invariant: from a sound state, over any sequence of messages and
-- outcomes of the channel, and whatever the kernel answers in each round, the state left is
-- sound.
pub serve-IsSound : (rs : List Round) (v : Server) → IsSound v.state → IsSound (serve rs v).1.state
serve-IsSound rs v sound =
    serve_induct (λ w. IsSound w.state) (λ x w m s. respond-IsSound x w m s) rs v sound
