-- ===== src/Service/Configure.antt =====
-- `configure_vhost` of service/vhost.c: a fresh endpoint is opened, given its rings and eventfds,
-- and bound to its notification route.
use hype_r_io_vm.Base.{
  ℕ, ◌+◌, ◌*◌, Bool, true, false, ◌||◌, not, Option, some, List, [], ◌∷◌, ◌++◌, ◌==◌, ltb, is_some,
  on_option, set, take, get_or, if◌then◌else◌,
}
use hype_r_io_vm.Service.Calls.{
  Kernel, Trace, Call, Device, chain, vhost, new_eventfd, open_device, bind_eventfds, set_resources,
  set_owner, set_features, set_mem_table, set_vring_num, set_vring_addr, set_vring_base,
  set_vring_kick, set_vring_call,
}
use hype_r_io_vm.Service.State.{
  Endpoint, Backend, World, Status, ok, invalid, busy, backend_failure, io_queues, no_events,
}
use hype_r_io_vm.Service.Rings.{Queue, Span, no_span, place_queues}

-- Which of the two endpoints a pointer `&b->disk` or `&b->net` is.
pub data Side : Type 0 where
  storage network : Side

abbrev pub endpoint : Side → Backend → Endpoint
endpoint storage b = b.disk
endpoint network b = b.net

abbrev pub set_endpoint : Side → Backend → Endpoint → Backend
set_endpoint storage b e = record b { disk = e }
set_endpoint network b e = record b { net = e }

-- The arrays of `struct hyper_io_eventfds bridge`.
pub record Bridge : Type 0 where
  pub kick : List (Option ℕ)
  pub call : List (Option ℕ)

-- What the loop over the queues carries.
pub record Setup : Type 0 where
  pub endpoint : Endpoint
  pub bridge : Bridge
  pub trace : Trace

-- SET_VRING_NUM, SET_VRING_ADDR and SET_VRING_BASE of queue `i`.
abbrev pub ring_calls : Option ℕ → ℕ → Queue → List Span → List Call
ring_calls fd i q spans =
    vhost fd (set_vring_num i q.size)
    ∷ vhost fd (
        set_vring_addr i (get_or spans (i * 3) no_span).start
          (get_or spans (i * 3 + 1) no_span).start (get_or spans (i * 3 + 2) no_span).start)
    ∷ vhost fd (set_vring_base i 0)
    ∷ []

-- Both eventfds of queue `i` are given to vhost, and noted for the bridge.
unfoldable pub hand_over : Kernel → ℕ → ℕ → ℕ → Setup → Bool × Setup
hand_over k i kick call s =
    let fd = s.endpoint.fd in
    let (done, t) =
      chain k (vhost fd (set_vring_kick i kick) ∷ vhost fd (set_vring_call i call) ∷ []) s.trace in
    if done
    then (
      true,
      record s {
        bridge = record {
          kick = set s.bridge.kick i (some kick);
          call = set s.bridge.call i (some call);
        };
        trace = t;
      },
    )
    else (false, record s { trace = t })

-- The two eventfds of queue `i`.
unfoldable pub make_events : Kernel → ℕ → Setup → Bool × Setup
unfolding hand_over
make_events k i s =
    let t1 = new_eventfd ∷ s.trace in
    on_option (k.number s.trace new_eventfd) (false, record s { trace = t1 })
      λ kick.
        let e1 = record (s.endpoint) { kick = set s.endpoint.kick i (some kick) } in
        let t2 = new_eventfd ∷ t1 in
        on_option (k.number t1 new_eventfd) (false, record s { endpoint = e1; trace = t2 })
          λ call.
            hand_over k i kick call
              (record s { endpoint = record e1 { call = set e1.call i (some call) }; trace = t2 })

unfoldable pub setup_queue : Kernel → List Span → ℕ → Queue → Setup → Bool × Setup
unfolding make_events
setup_queue k spans i q s =
    if q.size == 0
    then (true, s)
    else (let (done, t) = chain k (ring_calls s.endpoint.fd i q spans) s.trace in
        if done then make_events k i (record s { trace = t }) else (false, record s { trace = t }))

unfoldable pub setup_queues : Kernel → List Span → ℕ → List Queue → Setup → Bool × Setup
setup_queues k spans i [] s = (true, s)
setup_queues k spans i (q ∷ qs) s =
    let (done, s') = setup_queue k spans i q s in
    let rest = setup_queues k spans (i + 1) qs s' in if done then rest else (false, s')

-- SET_RESOURCES is sent for storage alone.
abbrev pub resource_calls : Side → Backend → Option ℕ → List Call
resource_calls storage b fd = vhost fd (set_resources b.scsi.request_queues b.scsi.sg_prealloc) ∷ []
resource_calls network b fd = []

abbrev pub device_calls : Side → Backend → Option ℕ → ℕ → ℕ → List Call
device_calls side b fd memory features =
    resource_calls side b fd
    ++ vhost fd set_owner
      ∷ vhost fd (set_features features)
      ∷ vhost fd (set_mem_table b.region.guest_base b.region.length memory)
      ∷ []

-- HYPER_IO_BIND of the endpoint that the loop has set up.
unfoldable pub bind_endpoint : Kernel → Side → Backend → ℕ → Setup → Status × World
bind_endpoint k side b epoch s =
    let e = s.endpoint in
    let call = bind_eventfds e.notification epoch s.bridge.kick s.bridge.call in
    let t = call ∷ s.trace in
    if k.accepts s.trace call
    then (ok, record { backend = set_endpoint side b (record e { bound = true }); trace = t })
    else (backend_failure, record { backend = set_endpoint side b e; trace = t })

-- The part after the validation: open, configure, set up the queues, bind.
unfoldable pub start_endpoint :
    Kernel → Side → Device → ℕ → ℕ → ℕ → List Queue → List Span → World → Status × World
start_endpoint k side device epoch features memory queues spans w =
    let b = w.backend in
    let opened = open_device device in
    let t1 = opened ∷ w.trace in
    on_option (k.number w.trace opened) (backend_failure, record w { trace = t1 })
      λ fd.
        let e = record (endpoint side b) { fd = some fd } in
        let (configured, t2) = chain k (device_calls side b (some fd) memory features) t1 in
        let start : Setup = record {
          endpoint = e;
          bridge = record { kick = no_events; call = no_events };
          trace = t2;
        } in
        let (ready, s) = setup_queues k spans 0 queues start in
        if not configured
        then (backend_failure, record { backend = set_endpoint side b e; trace = t2 })
        else if not ready
        then (backend_failure, record { backend = set_endpoint side b s.endpoint; trace = s.trace })
        else bind_endpoint k side b epoch s

-- `count` and the queue array; only its first `count` entries are read.
unfoldable pub configure_vhost :
    Kernel → Side → Device → ℕ → ℕ → List Queue → ℕ → ℕ → World → Status × World
configure_vhost k side device epoch features queues count required w =
    let b = w.backend in
    let e = endpoint side b in
    let wanted = take count queues in
    if is_some e.fd || e.bound || e.attached
    then (busy, w)
    else on_option b.memory (invalid, w)
        λ memory.
          if b.region.length == 0
            || not (is_some e.notification)
            || epoch == 0
            || ltb io_queues count
          then (invalid, w)
          else on_option (place_queues memory b.region required 0 wanted []) (invalid, w)
              λ spans. start_endpoint k side device epoch features memory wanted spans w
