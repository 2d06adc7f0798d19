-- ===== src/Examples/Sessions.antt =====
-- Messages of one client: HELLO, its repetition, and the release that ends the session.
use hype_r_io_vm.Base.{◌≡◌, ◌⊎◌, refl, true, false, some, List, [], ◌∷◌, arith}
use hype_r_io_vm.Session.{admit, fresh}
use hype_r_io_vm.Session.Order.{Admits, admit-Admits}
use hype_r_io_vm.Service.State.{ok, invalid, idle, no_region, endpoint_init}
use hype_r_io_vm.Service.Retire
use hype_r_io_vm.Service.Retire.{
  endpoint_close, quiesce_disk, quiesce_network, quiesce_all, release_memory,
}
use hype_r_io_vm.Wire.{header_of, le}
use hype_r_io_vm.Control.Op
use hype_r_io_vm.Control.Dispatch.{plain, dispatch}
use hype_r_io_vm.Control.Fence.{release_fence}
use hype_r_io_vm.Control.Serve.{
  Server, Reply, Round, done, started, reply_to, admit_message, device_of, hello_of, primary,
  respond, serve,
}
use hype_r_io_vm.Control.Serve.Safety.{IsSound, serve-IsSound}
use hype_r_io_vm.Control.Serve.Order.{Stands, Precedes, NotBefore, respond_order, serve_order}
use hype_r_io_vm.Control.Serve.Replay.{
  IsRemembering, remember_new, respond_repeat, serve-IsRemembering,
}
use hype_r_io_vm.Examples.{outside, resting, state, state-IsSound, hello_message, release_message}

abbrev rounds : List Round
rounds =
    record { outside = outside; received = done; message = hello_message; sent = done }
    ∷ record { outside = outside; received = done; message = release_message; sent = done }
    ∷ []

serve-IsSound_example : IsSound (serve rounds (started state)).1.state
serve-IsSound_example = serve-IsSound rounds (started state) state-IsSound

respond_order_example :
    let w = (respond outside (started state) hello_message).1 in
    Stands (started state) w ⊎ Precedes (started state) w
respond_order_example = respond_order outside (started state) hello_message

serve_order_example : NotBefore (started state) (serve rounds (started state)).1
serve_order_example = serve_order rounds (started state)

admit-Admits_example : let (a, t) = admit fresh 1 1 true true 0 in Admits fresh 1 1 true true 0 a t
admit-Admits_example = admit-Admits fresh 1 1 true true 0

started-IsRemembering : IsRemembering (started state)
started-IsRemembering p h = ground (arith, h)

serve-IsRemembering_example : IsRemembering (serve rounds (started state)).1
serve-IsRemembering_example = serve-IsRemembering rounds (started state) started-IsRemembering

-- A service that has answered HELLO.
abbrev hello_reply : Reply
hello_reply = reply_to (header_of hello_message) ok plain

abbrev greeted : Server
greeted = record {
  session = record { binding = 1; epoch_disk = 1; epoch_net = 0; retired = false };
  state = state;
  last_transaction = 1;
  remembered = some (hello_message, hello_reply);
}

greeted-IsRemembering : IsRemembering greeted
unfolding header_of le
greeted-IsRemembering =
    remember_new greeted (hello_message, hello_reply) refl
      (record { binding = refl; transaction = refl })

respond_repeat_example : respond outside greeted hello_message ≡ (hello_reply, greeted)
unfolding admit_message admit header_of le device_of hello_of primary idle
respond_repeat_example =
    respond_repeat outside greeted hello_message hello_reply greeted-IsRemembering refl

released : (dispatch outside Op.release_memory release_message (greeted.session) state).0.0 ≡ ok
unfolding dispatch release_memory Retire.retire quiesce_all quiesce_disk quiesce_network
    endpoint_close endpoint_init resting
released = refl

release_fence_example :
    let (answered, after) =
      dispatch outside Op.release_memory release_message (greeted.session) state in
    (idle answered.2.world.backend ≡ true)
    × (answered.2.world.backend.region ≡ no_region)
    × (dispatch outside Op.hello hello_message after answered.2
        ≡ ((invalid, plain, answered.2), after))
release_fence_example =
    release_fence outside outside release_message hello_message Op.hello (greeted.session) state
      released (omega arith)
