-- ===== src/Bridge/Notification.antt =====
-- `notification_ioctl`: the commands on a client's notification route. Each runs under
-- `bind_lock`. The registers' values and the outcomes of copies to and from the caller are answers
-- of the kernel and of the hypervisor.
pub mod Account
pub mod Wired
use hype_r_io_vm.Base.{
  ℕ, suc, ◌+◌, ◌*◌, ◌/◌, ◌^◌, Bool, true, false, ◌&&◌, ◌||◌, not, Option, none, some, List, [], ◌∷◌,
  ◌==◌, ltb, nonzero, on_option, if◌then◌else◌,
}
use hype_r_io_vm.Bridge.Eventfds.{
  Fd, minus_one, negative, number, Eventfds, hyper_io_eventfds_valid,
}
use hype_r_io_vm.Bridge.State.{
  Resource, kick_context, call_file, call_context, wait_entry, irq_line, Act, write, read, take,
  drop, drain, signal, Acts, Slot, Bridge, Route, unbind,
}

-- 0, or a negative error number; `bad_eventfd` is the error of a descriptor's lookup.
pub data Outcome : Type 0 where
  done not_a_command no_device busy bad_address invalid no_access bad_eventfd : Outcome

-- What the kernel and the hypervisor answer while one command runs. The functions on numbers
-- are for the queues: the lookups of `kick[i]` and `call[i]`, the wait queue that `vfs_poll` gave,
-- whether it reported EPOLLIN, and the count that the drain found.
pub record Answers : Type 0 where
  pub copied_in : Bool
  pub copied_out : Bool
  pub register : Acts → ℕ → ℕ
  pub kick : ℕ → Option ℕ
  pub file : ℕ → Option ℕ
  pub event : ℕ → Option ℕ
  pub queue : ℕ → Option ℕ
  pub ready : ℕ → Bool
  pub count : ℕ → ℕ

-- `struct hyper_io_admission`, without its output.
pub record Admission : Type 0 where
  pub token : ℕ
  pub guest_base : ℕ
  pub length : ℕ

pub data Command : Type 0 where
  admit : Admission → Command
  extent : ℕ → Command
  quiescent : ℕ → Command
  unbinds : Command
  bind : Eventfds → Command
  other : Command

-- What is copied back to the caller.
pub data Output : Type 0 where
  nothing : Output
  extent_count : ℕ → Output
  extent_of : ℕ → ℕ → ℕ → Output

abbrev pub Response : Type 0
Response = Outcome × Output × Route

abbrev pub refuse : Outcome → Route → Response
refuse e r = (e, nothing, r)

-- The acts of a read of register `offset`.
abbrev pub seen : ℕ → Acts → Acts
seen offset t = read offset ∷ t

-- HYPER_IO_ADMIT.
unfoldable pub admit_route : Answers → Admission → Route → Response
admit_route x g r =
    let t1 = seen 0x40 (write 0x28 g.token ∷ r.acts) in
    let t2 = seen 0x30 t1 in
    let short = not (x.register t1 0x30 == g.guest_base) in
    let t3 = if short then t2 else seen 0x38 t2 in
    let retired = write 0x20 g.token in
    let count = x.register t3 0x48 in
    let t4 = seen 0x48 t3 in
    if r.bridge.bound
    then refuse busy r
    else if not x.copied_in
    then refuse bad_address r
    else if g.token == 0
    then refuse invalid r
    else if nonzero (x.register (write 0x28 g.token ∷ r.acts) 0x40)
    then refuse no_access (record r { acts = t1 })
    else if short || not (x.register t2 0x38 == g.length)
    then refuse invalid (record r { acts = retired ∷ t3 })
    else if count == 0 || ltb (g.length / 4096) count || not x.copied_out
    then refuse invalid (record r { acts = retired ∷ t4 })
    else (done, extent_count count, record r { acts = t4 })

-- HYPER_IO_EXTENT.
unfoldable pub extent_route : Answers → ℕ → Route → Response
extent_route x index r =
    let t0 = write 0x50 index ∷ r.acts in
    let t1 = seen 0x70 t0 in
    let t2 = seen 0x58 t1 in
    let t3 = seen 0x60 t2 in
    let out = extent_of (x.register t1 0x58) (x.register t2 0x60) (x.register t3 0x68) in
    let r' = record r { acts = seen 0x68 t3 } in
    if r.bridge.bound
    then refuse busy r
    else if not x.copied_in
    then refuse bad_address r
    else if nonzero (x.register t0 0x70)
    then refuse invalid (record r { acts = t1 })
    else if x.copied_out
    then (done, out, r')
    else refuse bad_address r'

-- HYPER_IO_QUIESCENT.
unfoldable pub quiescent_route : Answers → ℕ → Route → Response
quiescent_route x token r =
    if r.bridge.bound
    then refuse busy r
    else if not x.copied_in
    then refuse bad_address r
    else if token == 0
    then refuse invalid r
    else refuse done (record r { acts = write 0x20 token ∷ r.acts })

-- `notify_call`
abbrev pub notify_call : Answers → ℕ → ℕ → ℕ → Acts → Acts
notify_call x i event epoch t =
    if nonzero (x.count i)
    then write 0x18 (epoch * 2 ^ 32 + 1) ∷ drain event ∷ t
    else drain event ∷ t

-- The entry of the wait queue, and the notification that was pending before it.
unfoldable pub poll_slot : Answers → ℕ → ℕ → Slot → Acts → Outcome × Slot × Acts
poll_slot x i event s t =
    on_option (x.queue i) (invalid, s, t)
      λ q.
        let t' = take (wait_entry q) ∷ t in
        (
          done,
          record s { queue = some q },
          if x.ready i then notify_call x i event s.epoch t' else t',
        )

unfoldable pub call_slot : Answers → ℕ → ℕ → Slot → Acts → Outcome × Slot × Acts
call_slot x epoch i s t =
    on_option (x.file i) (bad_eventfd, s, t)
      λ f.
        let s1 = record s { file = some f } in
        let t1 = take (call_file f) ∷ t in
        on_option (x.event i) (bad_eventfd, s1, t1)
          λ e.
            poll_slot x i e (record s1 { event = some e; epoch = epoch })
              (take (call_context e) ∷ t1)

-- The body of the loop of BIND, for entry `i`.
unfoldable pub bind_slot : Answers → ℕ → ℕ → Fd × Fd → Slot → Acts → Outcome × Slot × Acts
bind_slot x epoch i (minus_one, call) s t = (done, s, t)
bind_slot x epoch i (kick, call) s t =
    on_option (x.kick i) (bad_eventfd, s, t)
      λ k. call_slot x epoch i (record s { kick = some k }) (take (kick_context k) ∷ t)

unfoldable pub bind_slots :
    Answers → ℕ → ℕ → List (Fd × Fd) → List Slot → Acts → Outcome × List Slot × Acts
bind_slots x epoch i [] ss t = (done, ss, t)
bind_slots x epoch i (p ∷ ps) [] t = (done, [], t)
bind_slots x epoch i (p ∷ ps) (s ∷ ss) t =
    let (result, s', t') = bind_slot x epoch i p s t in
    let rest = bind_slots x epoch (i + 1) ps ss t' in
    elim result [ done ↦ (rest.0, s' ∷ rest.1, rest.2) | e ↦ (e, s' ∷ ss, t') ]

-- The end of BIND, by the result of its loop.
unfoldable pub finish : Outcome → Bridge → List Slot → Acts → Response
finish done b slots t = (
  done,
  nothing,
  record {
    bridge = record b { slots = slots; bound = true; irq_enabled = true };
    acts = take irq_line ∷ t;
  },
)
finish e b slots t = (e, nothing, unbind (record { bridge = record b { slots = slots }; acts = t }))

unfoldable pub install : Answers → Eventfds → Route → Response
install x f r =
    let (result, slots, t) = bind_slots x f.epoch 0 f.fds r.bridge.slots r.acts in
    finish result r.bridge slots t

-- HYPER_IO_BIND.
unfoldable pub bind_route : Answers → Eventfds → Route → Response
bind_route x f r =
    let t1 = seen 0x08 r.acts in
    let t2 = seen 0x0c t1 in
    if r.bridge.bound
    then refuse busy r
    else if not x.copied_in
    then refuse bad_address r
    else if f.epoch == 0 || nonzero f.reserved || not (hyper_io_eventfds_valid f r.bridge.network)
    then refuse invalid r
    else if not (f.epoch == x.register r.acts 0x08)
    then refuse invalid (record r { acts = t1 })
    else if nonzero (x.register t1 0x0c)
    then refuse invalid (record r { acts = t2 })
    else install x f (record r { acts = t2 })

-- The commands, once the route is known to be a live notification route.
unfoldable pub command_route : Answers → Command → Route → Response
command_route x (admit g) r = admit_route x g r
command_route x (extent index) r = extent_route x index r
command_route x (quiescent token) r = quiescent_route x token r
command_route x unbinds r = refuse done (unbind r)
command_route x (bind f) r = bind_route x f r
command_route x other r = refuse not_a_command r

abbrev pub is_command : Command → Bool
is_command other = false
is_command _ = true

unfoldable pub notification_ioctl : Answers → Command → Route → Response
notification_ioctl x c r =
    if r.bridge.mailbox || not (is_command c)
    then refuse not_a_command r
    else if r.bridge.dead
    then refuse no_device r
    else command_route x c r
