-- ===== src/Bridge/Device/Frame.antt =====
-- What the file operations of a bridge leave alone: who holds it, and whether it is dead.
use hype_r_io_vm.Base.{◌≡◌, refl, true, List, arith}
use hype_r_io_vm.Bridge.Eventfds.{Eventfds}
use hype_r_io_vm.Bridge.State.{Acts, Slot, Bridge, Route, unbind}
use hype_r_io_vm.Bridge.Notification.{
  Outcome, done, not_a_command, no_device, busy, bad_address, invalid, no_access, bad_eventfd,
  Answers, Command, admit, extent, quiescent, unbinds, bind, other, Output, Response, admit_route,
  extent_route, quiescent_route, bind_slots, finish, install, bind_route, command_route,
  notification_ioctl,
}

-- Two bridges agree on their references, on `opened` and `dead`, and on their kind.
abbrev pub SameFrame : Bridge → Bridge → Type 0
SameFrame b c =
    (b.references ≡ c.references)
    × (b.opened ≡ c.opened)
    × (b.dead ≡ c.dead)
    × (b.mailbox ≡ c.mailbox)

pub unbind-SameFrame : (r : Route) → SameFrame (unbind r).bridge r.bridge
unfolding unbind
unbind-SameFrame r = (refl, refl, refl, refl)

finish-SameFrame :
    (o : Outcome) (b : Bridge) (slots : List Slot) (t : Acts)
    → SameFrame (finish o b slots t).2.bridge b
unfolding finish unbind
finish-SameFrame done b slots t = (refl, refl, refl, refl)
finish-SameFrame not_a_command b slots t = (refl, refl, refl, refl)
finish-SameFrame no_device b slots t = (refl, refl, refl, refl)
finish-SameFrame busy b slots t = (refl, refl, refl, refl)
finish-SameFrame bad_address b slots t = (refl, refl, refl, refl)
finish-SameFrame invalid b slots t = (refl, refl, refl, refl)
finish-SameFrame no_access b slots t = (refl, refl, refl, refl)
finish-SameFrame bad_eventfd b slots t = (refl, refl, refl, refl)

module _ (r : Route) where
  -- Shut, so that the search sees one fact and not its fields.
  Framed : Response → Type 0
  Framed x = SameFrame x.2.bridge r.bridge

  keeps : (o : Outcome) (out : Output) (t : Acts) → Framed (o, out, record r { acts = t })
  unfolding Framed
  keeps o out t = (refl, refl, refl, refl)

  stays : (o : Outcome) (out : Output) → Framed (o, out, r)
  unfolding Framed
  stays o out = (refl, refl, refl, refl)

  unbinds_lem : (o : Outcome) (out : Output) → Framed (o, out, unbind r)
  unfolding Framed
  unbinds_lem o out = unbind-SameFrame r

  installs : (x : Answers) (f : Eventfds) (t : Acts) → Framed (install x f (record r { acts = t }))
  unfolding Framed install
  installs x f t =
      let (result, slots, t') = bind_slots x f.epoch 0 f.fds r.bridge.slots t in
      finish-SameFrame result r.bridge slots t'

  command-Framed : (x : Answers) (c : Command) → Framed (command_route x c r)
  unfolding command_route admit_route extent_route quiescent_route bind_route
  command-Framed x (admit g) = grind (arith, stays, keeps)
  command-Framed x (extent index) = grind (arith, stays, keeps)
  command-Framed x (quiescent token) = grind (arith, stays, keeps)
  command-Framed x unbinds = unbinds_lem _ _
  command-Framed x (bind f) = grind (arith, stays, keeps, installs)
  command-Framed x other = stays _ _

  notification-Framed : (x : Answers) (c : Command) → Framed (notification_ioctl x c r)
  unfolding notification_ioctl
  notification-Framed x c = grind (arith, stays, command-Framed x c)

  pub notification_ioctl-SameFrame :
      (x : Answers) (c : Command) → SameFrame (notification_ioctl x c r).2.bridge r.bridge
  unfolding Framed
  notification_ioctl-SameFrame x c = notification-Framed x c

  -- A dead bridge is left as it is.
  pub notification_ioctl_dead :
      (x : Answers) (c : Command) → r.bridge.dead ≡ true → (notification_ioctl x c r).2 ≡ r
  unfolding notification_ioctl
  notification_ioctl_dead x c dead = ground (arith, dead)
