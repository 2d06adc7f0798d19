-- ===== src/Service/Retire.antt =====
-- Retirement: `endpoint_close`, `quiesce_disk` and `quiesce_all` of service/vhost.c,
-- `quiesce_network` of service/network.c, and `release_memory` of service/memory.c. A C
-- result of 0 is `true`.
pub mod Drain
pub mod Release
use hype_r_io_vm.Base.{
  ℕ, Bool, true, false, ◌&&◌, Option, none, some, List, [], ◌∷◌, ◌==◌, if◌then◌else◌,
}
use hype_r_io_vm.Service.Calls.{
  Kernel, Trace, unmap, memory_release, prove_quiescent, unbind, scsi_clear_endpoint, reset_owner,
  close_descriptor, close_some,
}
use hype_r_io_vm.Service.State.{
  Endpoint, Backend, World, Status, ok, quiescence_failed, no_events, no_region, memory_endpoint,
}

-- The loop over `kick[i]` and `call[i]`.
close_events : List (Option ℕ) → List (Option ℕ) → Trace → Trace
close_events [] calls t = t
close_events (k ∷ ks) [] t = t
close_events (k ∷ ks) (c ∷ cs) t = close_events ks cs (close_some c (close_some k t))

-- The end of `endpoint_close`: the eventfds go once the producers are gone.
clear_events : Endpoint → Trace → Bool × Endpoint × Trace
unfolding close_events
clear_events e t =
    (true, record e { kick = no_events; call = no_events }, close_events e.kick e.call t)

unfoldable pub endpoint_close : Kernel → Endpoint → Trace → Bool × Endpoint × Trace
unfolding clear_events
endpoint_close k e t =
    let t' = close_some e.fd t in
    let e' = record e { fd = none } in
    let call = unbind e.notification in
    if e.bound
    then (if k.accepts t' call
        then clear_events (record e' { bound = false }) (call ∷ t')
        else (false, e', call ∷ t'))
    else clear_events e' t'

close_disk : Kernel → Backend → Trace → Bool × World
close_disk k b t =
    let (done, e, t') = endpoint_close k b.disk t in
    (done, record { backend = record b { disk = e }; trace = t' })

unfoldable pub quiesce_disk : Kernel → World → Bool × World
unfolding close_disk
quiesce_disk k w =
    let b = w.backend in
    let call = scsi_clear_endpoint b.disk.fd b.target in
    if b.disk.attached
    then (if k.accepts w.trace call
        then close_disk k (record b { disk = record (b.disk) { attached = false } })
            (call ∷ w.trace)
        else (false, record w { trace = call ∷ w.trace }))
    else close_disk k b w.trace

-- The TAP goes once its endpoint is closed.
close_network : Kernel → Backend → Trace → Bool × World
close_network k b t =
    let (done, e, t') = endpoint_close k b.net t in
    if done
    then (true, record { backend = record b { net = e; tap = none }; trace = close_some b.tap t' })
    else (false, record { backend = record b { net = e }; trace = t' })

unfoldable pub quiesce_network : Kernel → World → Bool × World
unfolding close_network
quiesce_network k w =
    let b = w.backend in
    let call = reset_owner b.net.fd in
    if b.net.attached
    then (if k.accepts w.trace call
        then close_network k (record b { net = record (b.net) { attached = false } })
            (call ∷ w.trace)
        else (false, record w { trace = call ∷ w.trace }))
    else close_network k b w.trace

-- Both drains are tried, the second also when the first failed.
unfoldable pub quiesce_all : Kernel → World → Bool × World
quiesce_all k w =
    let (disk, w1) = quiesce_disk k w in
    let (network, w2) = quiesce_network k w1 in (disk && network, w2)

-- `munmap`, and `memory = MAP_FAILED`.
unmap_memory : Kernel → World → Bool × World
unmap_memory k w =
    let b = w.backend in
    elim b.memory [
      | none ↦ (true, w)
      | some address ↦
          (let call = unmap address b.region.length in
            let t = call ∷ w.trace in
            if k.accepts w.trace call
            then (true, record { backend = record b { memory = none }; trace = t })
            else (false, record w { trace = t }))
    ]

-- HYPER_MEMORY_RELEASE, and the close of the memory descriptor.
close_memory : Kernel → World → Bool × World
close_memory k w =
    let b = w.backend in
    elim b.memory_fd [
      | none ↦ (true, w)
      | some fd ↦
          (let call = memory_release (some fd) in
            let closed = record b { memory_fd = none } in
            if b.managed
            then (if k.accepts w.trace call
                then (
                  true,
                  record { backend = closed; trace = close_descriptor fd ∷ call ∷ w.trace },
                )
                else (false, record w { trace = call ∷ w.trace }))
            else (true, record { backend = closed; trace = close_descriptor fd ∷ w.trace }))
    ]

-- HYPER_IO_QUIESCENT on the route that admitted the token, then the final clear.
retire_token : Kernel → World → Bool × World
retire_token k w =
    let b = w.backend in
    let call = prove_quiescent (memory_endpoint b).notification b.token in
    let cleared = record b { token = 0; region = no_region } in
    if b.token == 0
    then (true, record w { backend = cleared })
    else (if k.accepts w.trace call
        then (true, record { backend = cleared; trace = call ∷ w.trace })
        else (false, record w { trace = call ∷ w.trace }))

-- One step after another, until one fails.
infixl 5 ◌&>◌
abbrev ◌&>◌ : (World → Bool × World) → (World → Bool × World) → World → Bool × World
◌&>◌ first second w = let (done, w') = first w in if done then second w' else (false, w')

unfoldable pub retire : Kernel → World → Bool × World
unfolding unmap_memory close_memory retire_token
retire k = quiesce_all k &> unmap_memory k &> close_memory k &> retire_token k

unfoldable pub release_memory : Kernel → World → Status × World
release_memory k w = let (done, w') = retire k w in (if done then ok else quiescence_failed, w')
