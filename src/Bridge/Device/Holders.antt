-- ===== src/Bridge/Device/Holders.antt =====
-- Who holds a bridge, as an invariant, and what the calls do to the route.
use hype_r_io_vm.Base.{
  ℕ, ◌+◌, ◌*◌, ◌==◌, ◌≡◌, ◌≢◌, inl, inr, refl, Bool, true, false, not, Option, none, some, List, [],
  ◌∷◌, nonzero, bit_and, ◌^◌, if◌then◌else◌, arith, Bool-cases, if_elim,
}
use hype_r_io_vm.Bridge.State.{read, write, drain, Acts, Slot, Route, unbind}
use hype_r_io_vm.Bridge.Notification.{Answers, notify_call}
use hype_r_io_vm.Bridge.Notification.Account.{unbind-IsBalanced}
use hype_r_io_vm.Bridge.Notification.Wired.{
  IsWired, Quiet, Quiet-refl, Quiet-read, Quiet-write, Quiet-drain, Quiet-signal, Quiet-IsWired,
  unbind-IsWired,
}
use hype_r_io_vm.Bridge.Mailbox.{Meeting, mb_mask, control_read, control_write}
use hype_r_io_vm.Bridge.Mailbox.Accesses.{control_read-accesses, control_write-accesses}
use hype_r_io_vm.Bridge.Device.{
  signal_some, signal_slots, bridge_irq, call_wakeup, bridge_open, silence, File, no_file,
  open_file, quiet_file, System,
}
use hype_r_io_vm.Bridge.Device.Frame.{SameFrame}

abbrev pub count : Bool → ℕ
count b = if b then 1 else 0

abbrev pub file_count : File → ℕ
file_count no_file = 0
file_count open_file = 1
file_count quiet_file = 1

abbrev pub is_held : File → Bool
is_held no_file = false
is_held open_file = true
is_held quiet_file = true

abbrev pub is_open_file : File → Bool
is_open_file no_file = false
is_open_file open_file = true
is_open_file quiet_file = false

-- Between two steps: the route is wired, each reference has its holder, a file is open exactly while
-- `opened` is set, the bridge is dead exactly when it is deregistered, the handler lasts as long as
-- the driver, which outlasts the registration, only a route with its driver is bound, and, once its
-- file is past `unbind`, only one that is dead and waits for its driver to unbind it.
pub record IsAlive (s : System) : Type 0 where
  pub wired : IsWired s.route
  pub counted : s.route.bridge.references ≡ count s.driver + file_count s.file + s.puts
  pub admitted : s.route.bridge.opened ≡ is_held s.file
  pub dead : s.route.bridge.dead ≡ not s.registered
  pub handled : s.handler ≡ s.driver
  pub driven : s.registered ≡ true → s.driver ≡ true
  pub bound : s.route.bridge.bound ≡ true → s.driver ≡ true
  pub idle : is_open_file s.file ≡ false → s.route.bridge.bound ≡ true → s.route.bridge.dead ≡ true
  pub freed : s.freed ≡ (s.route.bridge.references == 0)

-- A change of who holds the bridge.
pub reheld-IsWired :
    (r : Route) (n : ℕ) (o d : Bool)
    → IsWired r
    → IsWired (record r { bridge = record r.bridge { references = n; opened = o; dead = d } })
reheld-IsWired r n o d v = record {
  size = v.size;
  balanced = v.balanced;
  irq = v.irq;
  unbound = v.unbound;
  whole = v.whole;
  control = v.control;
}

module _ (r : Route) (v : IsWired r) where
  signal_some-Quiet : (k : Option ℕ) (t : Acts) → Quiet r v t → Quiet r v (signal_some k t)
  signal_some-Quiet none t q = q
  signal_some-Quiet (some h) t q = Quiet-signal r v h t q

  signal_slots-Quiet :
      (pending i : ℕ) (ss : List Slot) (t : Acts)
      → Quiet r v t
      → Quiet r v (signal_slots pending i ss t)
  unfolding signal_slots
  signal_slots-Quiet pending i [] t q = q
  signal_slots-Quiet pending i (s ∷ ss) t q =
      signal_slots-Quiet pending (i + 1) ss
        (if nonzero (bit_and pending (2 ^ i)) then signal_some s.kick t else t)
        (if_elim (Quiet r v) (nonzero (bit_and pending (2 ^ i))) (signal_some s.kick t) t
          (λ _. signal_some-Quiet s.kick t q) (λ _. q))

  masked-IsWired : IsWired (record r { acts = write mb_mask 0 ∷ r.acts })
  masked-IsWired =
      Quiet-IsWired r v (write mb_mask 0 ∷ r.acts)
        (Quiet-write r v mb_mask 0 r.acts (Quiet-refl r v))

  pub irq-IsWired : (pending : ℕ) → IsWired (bridge_irq pending r)
  unfolding bridge_irq
  irq-IsWired pending =
      let t = signal_slots pending 0 r.bridge.slots (read 0x10 ∷ r.acts) in
      if_elim IsWired r.bridge.mailbox (record r { acts = write mb_mask 0 ∷ r.acts })
        (record r { acts = t }) (λ _. masked-IsWired)
        (λ _. Quiet-IsWired r v t (
          signal_slots-Quiet pending 0 r.bridge.slots (read 0x10 ∷ r.acts)
            (Quiet-read r v 0x10 r.acts (Quiet-refl r v))))

  wakeup-IsWired_acts :
      (x : Answers) (i event epoch : ℕ) → Quiet r v (notify_call x i event epoch r.acts)
  wakeup-IsWired_acts x i event epoch =
      if_elim (Quiet r v) _ _ _
        (λ _.
          Quiet-write r v 0x18 (epoch * 2 ^ 32 + 1) (drain event ∷ r.acts)
            (Quiet-drain r v event r.acts (Quiet-refl r v)))
        (λ _. Quiet-drain r v event r.acts (Quiet-refl r v))

  pub wakeup-IsWired :
      (x : Answers) (i : ℕ) (input : Bool) (event epoch : ℕ)
      → IsWired (call_wakeup x i input event epoch r)
  unfolding call_wakeup
  wakeup-IsWired x i input event epoch =
      let t = notify_call x i event epoch r.acts in
      if_elim IsWired input (record r { acts = t }) r
        (λ _. Quiet-IsWired r v t (wakeup-IsWired_acts x i event epoch)) (λ _. v)

  pub silence-IsWired : IsWired (silence r)
  unfolding silence
  silence-IsWired =
      if_elim IsWired r.bridge.mailbox (record r { acts = write mb_mask 0 ∷ r.acts }) (unbind r)
        (λ _. masked-IsWired)
        (λ _. unbind-IsWired r v.size (λ w. unbind-IsBalanced w r (v.balanced w)))

  -- Neither a silenced route nor the mailbox is bound.
  pub silence-bound : (silence r).bridge.bound ≡ false
  unfolding silence unbind
  silence-bound = elim (Bool-cases r.bridge.mailbox) [
    | inl mailbox ↦ let free = v.control mailbox in ground (arith, mailbox, free)
    | inr route ↦ ground (arith, route)
  ]

  pub reads-IsWired : (x : Meeting) (n : ℕ) → IsWired (record r { acts = (control_read x n r).1 })
  reads-IsWired x n =
      Quiet-IsWired r v (control_read x n r).1 (
        control_read-accesses (Quiet r v) (Quiet-read r v) (Quiet-write r v) x n r (Quiet-refl r v))

  pub writes-IsWired : (x : Meeting) (n : ℕ) → IsWired (record r { acts = (control_write x n r).1 })
  writes-IsWired x n =
      Quiet-IsWired r v (control_write x n r).1 (
        control_write-accesses (Quiet r v) (Quiet-read r v) (Quiet-write r v) x n r
          (Quiet-refl r v))

pub irq-SameFrame :
    (r : Route) (pending : ℕ)
    → SameFrame (bridge_irq pending r).bridge r.bridge
      × ((bridge_irq pending r).bridge.bound ≡ r.bridge.bound)
unfolding bridge_irq
irq-SameFrame r pending = ground arith

pub wakeup-SameFrame :
    (x : Answers) (i : ℕ) (input : Bool) (event epoch : ℕ) (r : Route)
    → SameFrame (call_wakeup x i input event epoch r).bridge r.bridge
      × ((call_wakeup x i input event epoch r).bridge.bound ≡ r.bridge.bound)
unfolding call_wakeup
wakeup-SameFrame x i input event epoch r = ground arith

pub silence-SameFrame : (r : Route) → SameFrame (silence r).bridge r.bridge
unfolding silence unbind
silence-SameFrame r = ground arith

pub bridge_open_lem :
    (r : Route)
    → (bridge_open r).0 ≡ true
    → (r.bridge.opened ≡ false)
      × ((bridge_open r).1 ≡ record r {
        bridge = record r.bridge { opened = true; references = r.bridge.references + 1 };
      })
unfolding bridge_open
bridge_open_lem r h = ground (arith, h)

pub bridge_open_busy : (r : Route) → (bridge_open r).0 ≡ false → (bridge_open r).1 ≡ r
unfolding bridge_open
bridge_open_busy r h = ground (arith, h)

pub is_held_lem : (f : File) → file_count f ≡ count (is_held f)
is_held_lem no_file = refl
is_held_lem open_file = refl
is_held_lem quiet_file = refl

-- One who holds the bridge keeps it from being freed.
pub held-freed : (s : System) → IsAlive s → s.route.bridge.references ≢ 0 → s.freed ≡ false
held-freed s v h = let f = v.freed in ground (arith, f, h)
