-- ===== src/Bridge/Device.antt =====
-- The life of a bridge: `bridge_probe`, `bridge_open`, `bridge_release`, `bridge_irq`,
-- `bridge_remove` and the two reference counts that decide when it is freed. A call that takes
-- `bind_lock` or `control_lock` is one step up to where it gives the lock back, and what it does
-- before and after are steps of their own.
pub mod Probe
pub mod Frame
pub mod Holders
pub mod Lifetime
pub mod Freed
use hype_r_io_vm.Base.{
  ℕ, ◌+◌, ◌-◌, ◌^◌, ◌≡◌, ◌≢◌, Bool, true, false, ◌&&◌, not, Option, none, some, List, [], ◌∷◌, ◌==◌,
  nonzero, bit_and, get_elem?, if◌then◌else◌,
}
use hype_r_io_vm.Bridge.State.{write, read, signal, Acts, Slot, Bridge, Route, probed, unbind}
use hype_r_io_vm.Bridge.Notification.{Answers, Command, notify_call, notification_ioctl}
use hype_r_io_vm.Bridge.Mailbox.{Meeting, mb_mask, control_read, control_write}

abbrev pub signal_some : Option ℕ → Acts → Acts
signal_some none t = t
signal_some (some h) t = signal h ∷ t

-- The loop over `pending` from queue `i` on.
unfoldable pub signal_slots : ℕ → ℕ → List Slot → Acts → Acts
signal_slots pending i [] t = t
signal_slots pending i (s ∷ ss) t =
    signal_slots pending (i + 1) ss
      (if nonzero (bit_and pending (2 ^ i)) then signal_some s.kick t else t)

unfoldable pub bridge_irq : ℕ → Route → Route
bridge_irq pending r =
    if r.bridge.mailbox
    then record r { acts = write mb_mask 0 ∷ r.acts }
    else record r { acts = signal_slots pending 0 r.bridge.slots (read 0x10 ∷ r.acts) }

-- `call_wakeup` of queue `i`, for a key that has EPOLLIN or not; the callback's own fields give the
-- context and the epoch.
unfoldable pub call_wakeup : Answers → ℕ → Bool → ℕ → ℕ → Route → Route
call_wakeup x i input event epoch r =
    if input then record r { acts = notify_call x i event epoch r.acts } else r

-- 0, or -EBUSY.
unfoldable pub bridge_open : Route → Bool × Route
bridge_open r =
    let b = r.bridge in
    if b.opened
    then (false, r)
    else (true, record r { bridge = record b { opened = true; references = b.references + 1 } })

-- What `bridge_release` and `bridge_remove` do to the device under the locks.
unfoldable pub silence : Route → Route
silence r = if r.bridge.mailbox then record r { acts = write mb_mask 0 ∷ r.acts } else unbind r

-- `bridge_release` up to `atomic_set`.
unfoldable pub release_route : Route → Route
release_route r = if r.bridge.dead then r else silence r

unfoldable pub clear_opened : Route → Route
clear_opened r = record r { bridge = record r.bridge { opened = false } }

unfoldable pub mark_dead : Route → Route
mark_dead r = record r { bridge = record r.bridge { dead = true } }

-- The count that `kref_put` decrements.
unfoldable pub put_reference : Route → Route
put_reference r = record r { bridge = record r.bridge { references = r.bridge.references - 1 } }

-- A file of the bridge: none, open, or past the locks of its release.
pub data File : Type 0 where
  no_file open_file quiet_file : File

-- The bridge with who may still call it: the registered device, the driver's reference, the IRQ's
-- handler, the file, the releases before their `kref_put`, and whether `bridge_destroy` ran.
pub record System : Type 0 where
  pub route : Route
  pub registered : Bool
  pub driver : Bool
  pub handler : Bool
  pub file : File
  pub puts : ℕ
  pub freed : Bool

-- `kref_put`, which runs `bridge_destroy` for the last reference.
unfoldable pub kref_put : System → System
kref_put s =
    let r = put_reference s.route in
    record s { route = r; freed = if r.bridge.references == 0 then true else s.freed }

abbrev pub with_route : Route → System → System
with_route r s = record s { route = r }

-- What `bridge_probe` leaves when it succeeds.
abbrev pub loaded : Bool → Bool → System
loaded mailbox network = record {
  route = record { bridge = probed mailbox network; acts = [] };
  registered = true;
  driver = true;
  handler = true;
  file = no_file;
  puts = 0;
  freed = false;
}

-- An IRQ of a notification route can only come while it is enabled.
abbrev pub may_interrupt : Bridge → Bool
may_interrupt b = if b.mailbox then true else b.irq_enabled

-- Opening needs the registered device, `misc_open` and `misc_deregister` being serialised; the other
-- file operations need the file, and its release comes once, after all of them. A wakeup comes while
-- the entry of its queue is in the wait queue.
pub data Step (s : System) : System → Type 0 where
  opens :
      s.registered ≡ true
      → (bridge_open s.route).0 ≡ true
      → Step s (record s { route = (bridge_open s.route).1; file = open_file })
  refuses :
      s.registered ≡ true
      → (bridge_open s.route).0 ≡ false
      → Step s (with_route (bridge_open s.route).1 s)
  commands :
      (x : Answers) (c : Command)
      → s.file ≡ open_file
      → Step s (with_route (notification_ioctl x c s.route).2 s)
  reads :
      (x : Meeting) (n : ℕ)
      → s.file ≡ open_file
      → Step s (with_route (record s.route { acts = (control_read x n s.route).1 }) s)
  writes :
      (x : Meeting) (n : ℕ)
      → s.file ≡ open_file
      → Step s (with_route (record s.route { acts = (control_write x n s.route).1 }) s)
  interrupts :
      (pending : ℕ)
      → s.handler ≡ true
      → may_interrupt s.route.bridge ≡ true
      → Step s (with_route (bridge_irq pending s.route) s)
  wakeups :
      (x : Answers) (i : ℕ) (input : Bool) (slot : Slot) (queue event : ℕ)
      → get_elem? s.route.bridge.slots i ≡ some slot
      → slot.queue ≡ some queue
      → slot.event ≡ some event
      → Step s (with_route (call_wakeup x i input event slot.epoch s.route) s)
  releases :
      s.file ≡ open_file → Step s (record s { route = release_route s.route; file = quiet_file })
  closes :
      s.file ≡ quiet_file
      → Step s (record s { route = clear_opened s.route; file = no_file; puts = s.puts + 1 })
  puts_file : s.puts ≢ 0 → Step s (kref_put (record s { puts = s.puts - 1 }))
  deregisters :
      s.registered ≡ true → Step s (record s { route = mark_dead s.route; registered = false })
  drains :
      s.registered ≡ false
      → s.driver ≡ true
      → Step s
          (record s { route = silence s.route; driver = false; handler = false; puts = s.puts + 1 })

pub data Reach (mailbox network : Bool) : System → Type 0 where
  start : Reach mailbox network (loaded mailbox network)
  later : {s t : System} → Reach mailbox network s → Step s t → Reach mailbox network t
